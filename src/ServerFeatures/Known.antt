-- ===== src/ServerFeatures/Known.antt =====
-- `Capabilities.Known`: what is kept of a list received from elsewhere.
use tokeninsights.Prelude.{
  String, ◌≡◌, refl, false, not, ◌&&◌, ◌||◌, List, [], ◌∷◌, ◌++◌, arith, eq_iff, if◌then◌else◌, inl,
  inr, Bool-cases,
}
use tokeninsights.ServerFeatures.{is_known, has, known_from, known_capabilities}

-- No name stands twice.
abbrev pub Distinct : List String → Type 0
Distinct [] = Unit
Distinct (c ∷ cs) = (has cs c ≡ false) × Distinct cs

pub has-append : (cs ds : List String) (w : String) → has (cs ++ ds) w ≡ has cs w || has ds w
unfolding has
has-append [] ds w = refl
has-append (c ∷ cs) ds w = ground (arith, has-append cs ds w)

Distinct-append_one :
    (cs : List String) (c : String) → Distinct cs → has cs c ≡ false → Distinct (cs ++ c ∷ [])
unfolding has
Distinct-append_one [] c d h = (refl, tt)
Distinct-append_one (x ∷ xs) c d h =
    ground (arith, has-append xs (c ∷ []) x, Distinct-append_one xs c d.1, eq_iff x c, eq_iff c x)

has-known_from :
    (result cs : List String) (w : String)
    → has (known_from result cs) w ≡ has result w || has cs w && is_known w
unfolding known_from has
has-known_from result [] w = ground arith
has-known_from result (c ∷ cs) w = ground (
  arith,
  has-known_from (if is_known c && not (has result c) then result ++ c ∷ [] else result) cs w,
  has-append result (c ∷ []) w,
  eq_iff c w,
)

known_from-Distinct : (result cs : List String) → Distinct result → Distinct (known_from result cs)
unfolding known_from
known_from-Distinct result [] d = d
known_from-Distinct result (c ∷ cs) d = elim (Bool-cases (is_known c && not (has result c))) [
  | inl e ↦
      rw e
        (known_from-Distinct (result ++ c ∷ []) cs (Distinct-append_one result c d (ground arith)))
  | inr e ↦ rw e (known_from-Distinct result cs d)
]

-- `Known` keeps exactly the capabilities of the list that are known, each of them once.
pub known_capabilities_lem :
    (cs : List String)
    → ((w : String) → has (known_capabilities cs) w ≡ has cs w && is_known w)
      × Distinct (known_capabilities cs)
unfolding known_capabilities has
known_capabilities_lem cs = (λ w. has-known_from [] cs w, known_from-Distinct [] cs tt)
