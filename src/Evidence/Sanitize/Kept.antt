-- ===== src/Evidence/Sanitize/Kept.antt =====
-- What a sanitized record holds (packages/core/evidence/whitelist.go).
use tokeninsights.Prelude.{
  ℕ, ◌≤◌, codes, String, true, false, List, [], ◌∷◌, Option, none, some, is_none, ltb, ◌==◌, nat_eq,
  ◌≡◌, ◌⊎◌, inl, inr, refl, sym, ap, subst, arith, Bool-cases, Option-cases, ◌∙◌,
}
use tokeninsights.Prelude.Results.{Result, err, ok, ok_inj, ◌>>=◌}
use tokeninsights.Publication.Text.{byte_length, any_of, is_control}
use tokeninsights.Evidence.Json.{
  Json, null, truth, number, text, array, object, Members, end, FieldPath, leaf, is_object,
}
use tokeninsights.Evidence.Json.Leaves.{
  AllUnique, AllUniqueMembers, set_leaf-AllUnique, leaf-set_leaf-only, leaf-end,
}
use tokeninsights.Evidence.Sanitize.{
  split, starts_with, contains_text, on_drive, safe_metadata, fault, clean, Kept, keep, keep_all,
  paths, decode_object, sanitize_object, sanitize_by, sanitize,
}

-- Not a character of one byte before `:/`, as a path on a drive is.
abbrev pub IsOffDrive : List ℕ → Type 0
IsOffDrive (c ∷ d ∷ e ∷ cs) = (128 ≤ c) ⊎ ((d == b':') ≡ false) ⊎ ((e == b'/') ≡ false)
IsOffDrive _ = Unit

-- A text without control characters, `@` and backslashes that is no absolute path, with a drive or without, and has at
-- most 256 bytes.
abbrev pub IsHarmlessText : String → Type 0
IsHarmlessText s =
    (byte_length (codes s) ≤ 256)
    × (any_of is_control (codes s) ≡ false)
    × (any_of (λ c. c == b'@') (codes s) ≡ false)
    × (any_of (λ c. c == b'\\') (codes s) ≡ false)
    × (starts_with (b'/' ∷ []) (codes s) ≡ false)
    × (contains_text (b':' ∷ b'/' ∷ b'/' ∷ []) (codes s) ≡ false)
    × IsOffDrive (codes s)

-- Neither an object nor a list, and short.
abbrev pub IsHarmless : Json → Type 0
IsHarmless null = Unit
IsHarmless (truth b) = Unit
IsHarmless (number n) = byte_length (codes n) ≤ 256
IsHarmless (text s) = IsHarmlessText s
IsHarmless (array xs) = ⊥
IsHarmless (object ms) = ⊥

abbrev pub IsAllowed : FieldPath → List String → Type 0
IsAllowed q [] = ⊥
IsAllowed q (path ∷ rest) = (q ≡ split path) ⊎ IsAllowed q rest

-- A value is harmless, and either the source's at the path or null.
abbrev pub IsTraced : Members → FieldPath → Json → Type 0
IsTraced source q v = IsHarmless v × ((leaf q source ≡ some v) ⊎ (v ≡ null))

contains_one : (p : ℕ) (cs : List ℕ) → contains_text (p ∷ []) cs ≡ any_of (λ c. c == p) cs
unfolding contains_text any_of starts_with
contains_one p [] = refl
contains_one p (c ∷ cs) = elim (Bool-cases (c == p)) [
  | inl e ↦ rw e refl
  | inr e ↦ rw (e, contains_one p cs) refl
]

off_drive : (cs : List ℕ) → on_drive cs ≡ false → IsOffDrive cs
unfolding on_drive
off_drive (c ∷ d ∷ e ∷ cs) h = ground arith
off_drive [] h = tt
off_drive (c ∷ []) h = tt
off_drive (c ∷ d ∷ []) h = tt

safe_metadata-IsHarmlessText : (s : String) → safe_metadata s ≡ true → IsHarmlessText s
unfolding safe_metadata
safe_metadata-IsHarmlessText s e = (
  ground arith,
  ground arith,
  sym (contains_one b'@' (codes s)) ∙ ground arith,
  sym (contains_one b'\\' (codes s)) ∙ ground arith,
  ground arith,
  ground arith,
  off_drive (codes s) (ground arith),
)

clean-IsHarmless : (v : Json) → IsHarmless (clean v)
unfolding clean fault
clean-IsHarmless null = tt
clean-IsHarmless (truth b) = tt
clean-IsHarmless (array xs) = tt
clean-IsHarmless (object ms) = tt
clean-IsHarmless (text s) = elim (Bool-cases (safe_metadata s)) [
  | inl e ↦ rw e (safe_metadata-IsHarmlessText s e)
  | inr e ↦ rw e tt
]
clean-IsHarmless (number n) = elim (Bool-cases (ltb 256 (byte_length (codes n)))) [
  | inl e ↦ rw e tt
  | inr e ↦ rw e (ground arith)
]

clean-plain : (v : Json) → is_object (clean v) ≡ false
unfolding clean fault
clean-plain null = refl
clean-plain (truth b) = refl
clean-plain (array xs) = refl
clean-plain (object ms) = refl
clean-plain (text s) = elim (Bool-cases (safe_metadata s)) [ inl e ↦ rw e refl | inr e ↦ rw e refl ]
clean-plain (number n) = elim (Bool-cases (ltb 256 (byte_length (codes n)))) [
  | inl e ↦ rw e refl
  | inr e ↦ rw e refl
]

clean-AllUnique : (v : Json) → AllUnique (clean v)
clean-AllUnique v = plain (clean v) (clean-plain v)
  where
    plain : (w : Json) → is_object w ≡ false → AllUnique w
    plain null e = tt
    plain (truth b) e = tt
    plain (number n) e = tt
    plain (text s) e = tt
    plain (array xs) e = tt
    plain (object ms) e = cc

clean_or_null : (v : Json) → (clean v ≡ v) ⊎ (clean v ≡ null)
unfolding clean
clean_or_null v = elim (Bool-cases (is_none (fault v))) [
  | inl e ↦ inl (rw e refl)
  | inr e ↦ inr (rw e refl)
]

pub keep-AllUnique :
    (parts : FieldPath) (o : Option Json) (k : Kept)
    → AllUniqueMembers k.0
    → AllUniqueMembers (keep parts o k).0
keep-AllUnique parts none k u = u
keep-AllUnique parts (some v) k u = set_leaf-AllUnique parts (clean v) k.0 (clean-AllUnique v) u

traced :
    (source : Members) (q : FieldPath) (v w : Json)
    → leaf q source ≡ some v
    → w ≡ clean v
    → IsTraced source q w
traced source q v w at e = subst (IsTraced source q) (sym e) (
  clean-IsHarmless v,
  elim (clean_or_null v) [ inl same ↦ inl (at ∙ ap some (sym same)) | inr none' ↦ inr none' ],
)

keep-only :
    (source : Members) (parts q : FieldPath) (o : Option Json) (w : Json) (k : Kept)
    → leaf parts source ≡ o
    → AllUniqueMembers k.0
    → is_object w ≡ false
    → leaf q (keep parts o k).0 ≡ some w
    → ((q ≡ parts) × IsTraced source q w) ⊎ (leaf q k.0 ≡ some w)
keep-only source parts q none w k at u plain e = inr e
keep-only source parts q (some v) w k at u plain e =
    elim (leaf-set_leaf-only parts q (clean v) w k.0 u (clean-plain v) plain e) [
      | inl (here, is_clean) ↦
          inl
            (here, traced source q v w (subst (λ p. leaf p source ≡ some v) (sym here) at) is_clean)
      | inr old ↦ inr old
    ]

keep_all-only :
    (source : Members) (allowed : List String) (q : FieldPath) (w : Json) (k : Kept)
    → AllUniqueMembers k.0
    → is_object w ≡ false
    → leaf q (keep_all source allowed k).0 ≡ some w
    → (IsAllowed q allowed × IsTraced source q w) ⊎ (leaf q k.0 ≡ some w)
unfolding keep_all
keep_all-only source [] q w k u plain e = inr e
keep_all-only source (path ∷ rest) q w k u plain e =
    let o = leaf (split path) source in
    elim (keep_all-only source rest q w (keep (split path) o k) (keep-AllUnique (split path) o k u)
      plain e) [
        | inl (allowed, ok') ↦ inl (inr allowed, ok')
        | inr old ↦ elim (keep-only source (split path) q o w k refl u plain old) [
          | inl (here, ok') ↦ inl (inl here, ok')
          | inr older ↦ inr older
        ]
      ]

refused : {why : String} {k : Kept} → ◌≡◌ {A = Result String Kept} (err why) (ok k) → ⊥
refused e = cc

decoded :
    (harness : String) (allowed : List String) (k : Kept) (r : Result String Members)
    → ◌≡◌ {A = Result String Kept}
        (r >>= λ source. ok (sanitize_object harness source allowed))
        (ok k)
    → (source : Members) × (r ≡ ok source) × (sanitize_object harness source allowed ≡ k)
decoded harness allowed k (err why) e = cc
decoded harness allowed k (ok source) e = (source, refl, ok_inj _ _ e)

-- What `Sanitize` takes from the source, and by which paths.
pub sanitize-source :
    (harness format : String) (body : Option Json) (k : Kept)
    → sanitize harness format body ≡ ok k
    → (allowed : List String) × (source : Members) × (paths harness format ≡ some allowed)
      × (decode_object body ≡ ok source)
      × (sanitize_object harness source allowed ≡ k)
unfolding sanitize
sanitize-source harness format body k e = elim (Option-cases (paths harness format)) [
  | inl none' ↦ absurd (refused (rw (none', sanitize_by) at e))
  | inr (allowed, at) ↦
      let (source, found, rest) =
        decoded harness allowed k (decode_object body) (rw (at, sanitize_by) at e) in
      (allowed, source, at, found, rest)
]

abbrev pub KeptOnly : String → String → Option Json → FieldPath → Json → Type 0
KeptOnly harness format body q v =
    (allowed : List String) × (source : Members) × (paths harness format ≡ some allowed)
    × (decode_object body ≡ ok source)
    × IsAllowed q allowed
    × IsTraced source q v

-- Whatever a sanitized record holds at a path, an object apart, stands at a path that is allowed for the
-- harness and the format, is null or what the source holds at that path, and is harmless: no list, at most
-- 256 bytes long, and if a text, without control characters, `@`, backslashes and `://`, and no absolute
-- path, neither with a drive nor without.
pub sanitize-only :
    (harness format : String) (body : Option Json) (k : Kept) (q : FieldPath) (v : Json)
    → sanitize harness format body ≡ ok k
    → leaf q k.0 ≡ some v
    → is_object v ≡ false
    → KeptOnly harness format body q v
sanitize-only harness format body k q v e at plain =
    let (allowed, source, known, found, same) = sanitize-source harness format body k e in
    elim (keep_all-only source allowed q v (end, []) tt plain
      (subst (λ m. leaf q m ≡ some v) (sym (ap (λ j. j.0) same)) at)) [
        | inl (here, ok') ↦ (allowed, source, known, found, here, ok')
        | inr none' ↦ absurd (missing (sym (leaf-end q) ∙ none'))
      ]
  where
    missing : none ≡ some v → ⊥
    missing e = cc
