-- ===== src/Evidence/Sanitize/Again.antt =====
-- That a sanitized record is left as it is (packages/core/evidence/whitelist.go).
use mathlib.Core.Option
use tokeninsights.Prelude.{
  codes, String, List, [], ◌∷◌, Option, none, some, ltb, nat_eq, ◌≡◌, inl, inr, refl, sym, ap,
  Bool-cases, ◌∙◌,
}
use tokeninsights.Prelude.Results.{ok}
use tokeninsights.Publication.Text.{byte_length}
use tokeninsights.Evidence.Json.{
  Json, null, truth, number, text, array, object, Members, end, FieldPath, leaf, set_leaf,
}
use tokeninsights.Evidence.Sanitize.{
  split, safe_metadata, fault, clean, Kept, keep, keep_all, decode_object, sanitize_object,
  sanitize,
}
use tokeninsights.Evidence.Sanitize.Kept.{IsAllowed, sanitize-source}
use tokeninsights.Evidence.Sanitize.Formats.{sanitize-here}

clean_idem : (v : Json) → clean (clean v) ≡ clean v
unfolding clean fault
clean_idem null = refl
clean_idem (truth b) = refl
clean_idem (array xs) = refl
clean_idem (object ms) = refl
clean_idem (text s) = elim (Bool-cases (safe_metadata s)) [
  | inl e ↦ rw (e, e) refl
  | inr e ↦ rw e refl
]
clean_idem (number n) = elim (Bool-cases (ltb 256 (byte_length (codes n)))) [
  | inl e ↦ rw e refl
  | inr e ↦ rw (e, e) refl
]

cleaned_idem : (o : Option Json) → Option.map clean (Option.map clean o) ≡ Option.map clean o
cleaned_idem none = refl
cleaned_idem (some v) = ap some (clean_idem v)

abbrev set_cleaned : FieldPath → Option Json → Members → Members
set_cleaned parts none ms = ms
set_cleaned parts (some v) ms = set_leaf parts v ms

keep-cleaned :
    (parts : FieldPath) (o : Option Json) (k : Kept)
    → (keep parts o k).0 ≡ set_cleaned parts (Option.map clean o) k.0
keep-cleaned parts none k = refl
keep-cleaned parts (some v) k = refl

-- Two records of which the same is kept at the paths give the same record.
keep_all-same :
    (a b : Members) (allowed : List String) (k l : Kept)
    → ((q : FieldPath)
        → IsAllowed q allowed
        → Option.map clean (leaf q a) ≡ Option.map clean (leaf q b))
    → k.0 ≡ l.0
    → (keep_all a allowed k).0 ≡ (keep_all b allowed l).0
unfolding keep_all
keep_all-same a b [] k l same e = e
keep_all-same a b (path ∷ rest) k l same e =
    keep_all-same a b rest _ _ (λ q here. same q (inr here))
      (keep-cleaned (split path) (leaf (split path) a) k
        ∙ (rw (same (split path) (inl refl), e) refl)
        ∙ sym (keep-cleaned (split path) (leaf (split path) b) l))

-- What `Sanitize` makes of a record it makes of it again, with whatever diagnostics.
pub sanitize-again :
    (harness format : String) (body : Option Json) (k : Kept)
    → sanitize harness format body ≡ ok k
    → (diagnostics : List String) × (sanitize harness format (some (object k.0))
        ≡ ok (k.0, diagnostics))
unfolding sanitize decode_object
sanitize-again harness format body k e =
    let (allowed, source, known, found, is_kept) = sanitize-source harness format body k e in
    let same : (keep_all k.0 allowed (end, [])).0 ≡ k.0 =
      keep_all-same k.0 source allowed (end, []) (end, [])
        (λ q here.
          ap (Option.map clean)
            (sanitize-here harness format body k allowed source q e known found here)
          ∙ cleaned_idem (leaf q source))
        refl
      ∙ ap (λ j. j.0) is_kept in
    (
      (sanitize_object harness k.0 allowed).1,
      rw known (ap (λ m. ok (m, (sanitize_object harness k.0 allowed).1)) same),
    )
