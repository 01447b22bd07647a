-- ===== src/CollectorProgress/Registry/Oldest.antt =====
-- The search of `Apply` for the terminal attempt that ended first.
use tokeninsights.Prelude.{
  ℕ, ◌≤◌, String, true, false, ◌&&◌, ◌||◌, [], ◌∷◌, some, ◌≡◌, arith, ltb, eq_iff, Bool-cases, inl,
  inr, is_none, ◌==◌, string_eq,
}
use tokeninsights.Prelude.Maps.{Map, lookup, Unique}
use tokeninsights.CollectorProgress.Message.{terminal}
use tokeninsights.CollectorProgress.Registry.{Attempt, finished_of, oldest_from}

-- Every entry of `rest` is the one that `all` has under its id, and no id is empty.
abbrev pub Within : Map Attempt → Map Attempt → Type 0
Within all [] = Unit
Within all ((id, a) ∷ rest) = ((id == "") ≡ false) × (lookup id all ≡ some a) × Within all rest

Within-cons :
    (k : String) (v : Attempt) (all rest : Map Attempt)
    → is_none (lookup k rest) ≡ true
    → Within all rest
    → Within ((k, v) ∷ all) rest
unfolding lookup
Within-cons k v all [] fresh h = tt
Within-cons k v all ((id, a) ∷ rest) fresh (named, found, h) = elim (Bool-cases (k == id)) [
  | inl e ↦ absurd (ground (arith, eq_iff k id, eq_iff id k, fresh))
  | inr e ↦ (
    named,
    rw e found,
    Within-cons k v all rest (ground (arith, eq_iff k id, eq_iff id k, fresh)) h,
  )
]

abbrev pub AllNamed : Map Attempt → Type 0
AllNamed [] = Unit
AllNamed ((id, a) ∷ rest) = ((id == "") ≡ false) × AllNamed rest

pub Within-self : (all : Map Attempt) → Unique all → AllNamed all → Within all all
unfolding lookup
Within-self [] u n = tt
Within-self ((id, a) ∷ all) u (named, n) =
    (named, ground (arith, eq_iff id id), Within-cons id a all all u.0 (Within-self all u.1 n))

module _ (all : Map Attempt) where
  abbrev age : String → ℕ
  age id = finished_of (lookup id all)

  -- The id that the search holds is that of a terminal attempt.
  oldest-found :
      (rest : Map Attempt) (oldest : String)
      → Within all rest
      → ((oldest == "") ≡ false
          → (a : Attempt) × (lookup oldest all ≡ some a) × (terminal a.stage ≡ true))
      → (oldest_from all rest oldest == "") ≡ false
      → (a : Attempt) × (lookup (oldest_from all rest oldest) all ≡ some a)
        × (terminal a.stage ≡ true)
  unfolding oldest_from
  oldest-found [] oldest w h e = h e
  oldest-found ((id, c) ∷ rest) oldest (named, found, w) h e =
      elim (Bool-cases (
        terminal c.stage
        && (oldest == "" || ltb c.finished_at_ms (finished_of (lookup oldest all))))) [
          | inl better ↦
              rw better
                (oldest-found rest id w (λ _. (c, found, ground (arith, better))) (rw better at e))
          | inr worse ↦ rw worse (oldest-found rest oldest w h (rw worse at e))
        ]

  -- Once the search holds an id it goes on to ids that ended no later.
  oldest-keeps :
      (rest : Map Attempt) (oldest : String)
      → Within all rest
      → (oldest == "") ≡ false
      → ((oldest_from all rest oldest == "") ≡ false)
        × (age (oldest_from all rest oldest) ≤ age oldest)
  unfolding oldest_from finished_of
  oldest-keeps [] oldest w named = (named, omega arith)
  oldest-keeps ((id, c) ∷ rest) oldest (n, found, w) named =
      ground (arith, oldest-keeps rest id w n, oldest-keeps rest oldest w named)

  -- Whatever terminal attempt the search passes, it ends at one that ended no later.
  oldest-le :
      (rest : Map Attempt) (oldest j : String) (b : Attempt)
      → Within all rest
      → lookup j rest ≡ some b
      → terminal b.stage ≡ true
      → ((oldest_from all rest oldest == "") ≡ false)
        × (age (oldest_from all rest oldest) ≤ b.finished_at_ms)
  unfolding oldest_from finished_of lookup
  oldest-le [] oldest j b w at' over = cc
  oldest-le ((id, c) ∷ rest) oldest j b (n, found, w) at' over = ground (
    arith,
    oldest-keeps rest id w n,
    oldest-keeps rest oldest w,
    oldest-le rest id j b w,
    oldest-le rest oldest j b w,
  )

-- What `Apply` drops from a full registry: nothing if no attempt is terminal, else a terminal
-- attempt than which no other terminal one ended earlier.
pub record IsOldest (all : Map Attempt) (id : String) : Type 0 where
  pub none_over :
      (id == "") ≡ true
      → (j : String) (b : Attempt) → lookup j all ≡ some b
      → terminal b.stage ≡ false
  pub found :
      (id == "") ≡ false → (a : Attempt) × (lookup id all ≡ some a) × (terminal a.stage ≡ true)
  pub first :
      (j : String) (b : Attempt)
      → lookup j all ≡ some b
      → terminal b.stage ≡ true
      → finished_of (lookup id all) ≤ b.finished_at_ms

pub oldest_from-IsOldest :
    (all : Map Attempt) → Unique all → AllNamed all → IsOldest all (oldest_from all all "")
oldest_from-IsOldest all u n =
    let w = Within-self all u n in
    record {
      none_over = λ e j b at'. elim (Bool-cases (terminal b.stage)) [
        | inl over ↦ cc ((oldest-le all all "" j b w at' over).0, e)
        | inr live ↦ live
      ];
      found = λ e. oldest-found all all "" w (λ h. cc h) e;
      first = λ j b at' over. (oldest-le all all "" j b w at' over).1;
    }
