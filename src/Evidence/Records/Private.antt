-- ===== src/Evidence/Records/Private.antt =====
-- That the data which a server takes (packages/core/evidence/codec.go) hold nothing private.
use tokeninsights.Prelude.{
  ℕ, ◌≤◌, codes, String, true, false, Option, none, some, List, [], ◌∷◌, All, All-get_elem?, map,
  get_elem?, ◌==◌, nat_eq, string_eq, ◌≡◌, inl, inr, refl, sym, subst, eq_iff, Option-cases, ◌∙◌,
}
use tokeninsights.Prelude.Results.{ok, guard-eq-ok, >>=-then, >>-eq-ok}
use tokeninsights.Publication.Text.{byte_length}
use tokeninsights.Evidence.Json.{
  Json, null, truth, number, text, array, object, Members, value_of, FieldPath, members_of, leaf,
  is_object,
}
use tokeninsights.Evidence.Json.Leaves.{leaf-end}
use tokeninsights.Evidence.Sanitize.{paths, decode_object, sanitize, Kept}
use tokeninsights.Evidence.Sanitize.Kept.{IsHarmless, IsHarmlessText, IsAllowed, sanitize-only}
use tokeninsights.Evidence.Sanitize.Again.{sanitize-again}
use tokeninsights.Evidence.Records.{
  same, key_count, included, SourceRecord, NativeContext, check_data, check_record, check_context,
  check_contexts, clone_of, validate_record,
}
use tokeninsights.Evidence.Records.Compared.{same_self, included-value_of, both}

none_apart : {v : Json} → none ≡ some v → ⊥
none_apart e = cc

object_parts :
    (x y : Json) (r : String) (qs : FieldPath) (v : Json)
    → same x y ≡ true
    → leaf (r ∷ qs) (members_of (some x)) ≡ some v
    → (xs : Members) × (ys : Members) × (included xs ys ≡ true)
      × (leaf (r ∷ qs) xs ≡ some v)
      × (members_of (some y) ≡ ys)
unfolding same
object_parts (object ms) (object ns) r qs v s e =
    (ms, ns, (both (key_count ms == key_count ns) (included ms ns) s).1, e, refl)
object_parts (object ms) null r qs v s e = cc
object_parts (object ms) (truth b) r qs v s e = cc
object_parts (object ms) (number n) r qs v s e = cc
object_parts (object ms) (text t) r qs v s e = cc
object_parts (object ms) (array xs) r qs v s e = cc
object_parts null y r qs v s e = absurd (none_apart (sym (leaf-end (r ∷ qs)) ∙ e))
object_parts (truth b) y r qs v s e = absurd (none_apart (sym (leaf-end (r ∷ qs)) ∙ e))
object_parts (number n) y r qs v s e = absurd (none_apart (sym (leaf-end (r ∷ qs)) ∙ e))
object_parts (text t) y r qs v s e = absurd (none_apart (sym (leaf-end (r ∷ qs)) ∙ e))
object_parts (array xs) y r qs v s e = absurd (none_apart (sym (leaf-end (r ∷ qs)) ∙ e))

included-leaf :
    (q : FieldPath) (ms ns : Members) (v : Json)
    → included ms ns ≡ true
    → leaf q ms ≡ some v
    → (w : Json) × (leaf q ns ≡ some w) × (same v w ≡ true)
unfolding leaf
included-leaf [] ms ns v i e = cc
included-leaf (p ∷ []) ms ns v i e = included-value_of p ms ns v i e
included-leaf (p ∷ r ∷ qs) ms ns v i e = elim (Option-cases (value_of p ms)) [
  | inl none' ↦ absurd (none_apart (sym (leaf-end (r ∷ qs)) ∙ (rw none' at e)))
  | inr (x, at) ↦
      let (y, at', is_same) = included-value_of p ms ns x i at in
      let (xs, ys, inner, e', at_y) = object_parts x y r qs v is_same (rw at at e) in
      rw (at', at_y) (included-leaf (r ∷ qs) xs ys v inner e')
]

-- What is the same as a harmless value is harmless, an object apart.
same-IsHarmless : (v w : Json) → same v w ≡ true → IsHarmless w → IsHarmless v
unfolding same
same-IsHarmless null w s h = tt
same-IsHarmless (truth b) w s h = tt
same-IsHarmless (number n) (number m) s h =
    subst (λ t. byte_length (codes t) ≤ 256) (sym ((eq_iff n m).0 s)) h
same-IsHarmless (text n) (text m) s h = subst IsHarmlessText (sym ((eq_iff n m).0 s)) h
same-IsHarmless (array xs) (array ys) s h = absurd h
same-IsHarmless (object ms) (object ns) s h = absurd h
same-IsHarmless (number n) null s h = cc
same-IsHarmless (number n) (truth b) s h = cc
same-IsHarmless (number n) (text u) s h = cc
same-IsHarmless (number n) (array ys) s h = cc
same-IsHarmless (number n) (object ns) s h = cc
same-IsHarmless (text t) null s h = cc
same-IsHarmless (text t) (truth b) s h = cc
same-IsHarmless (text t) (number m) s h = cc
same-IsHarmless (text t) (array ys) s h = cc
same-IsHarmless (text t) (object ns) s h = cc
same-IsHarmless (array xs) null s h = cc
same-IsHarmless (array xs) (truth b) s h = cc
same-IsHarmless (array xs) (number m) s h = cc
same-IsHarmless (array xs) (text u) s h = cc
same-IsHarmless (array xs) (object ns) s h = cc
same-IsHarmless (object ms) null s h = cc
same-IsHarmless (object ms) (truth b) s h = cc
same-IsHarmless (object ms) (number m) s h = cc
same-IsHarmless (object ms) (text u) s h = cc
same-IsHarmless (object ms) (array ys) s h = cc

same-plain : (v w : Json) → same v w ≡ true → is_object v ≡ false → is_object w ≡ false
unfolding same
same-plain v null s p = refl
same-plain v (truth b) s p = refl
same-plain v (number n) s p = refl
same-plain v (text t) s p = refl
same-plain v (array xs) s p = refl
same-plain null (object ns) s p = cc
same-plain (truth b) (object ns) s p = cc
same-plain (number n) (object ns) s p = cc
same-plain (text t) (object ns) s p = cc
same-plain (array xs) (object ns) s p = cc
same-plain (object ms) (object ns) s p = cc

-- What is published of a source: values at allowed paths, harmless ones.
abbrev pub IsPublishable : String → String → FieldPath → Json → Type 0
IsPublishable harness format q v =
    (allowed : List String) × (paths harness format ≡ some allowed)
    × IsAllowed q allowed
    × IsHarmless v

check_data-IsPublishable :
    (harness format : String) (ms : Members) (q : FieldPath) (v : Json)
    → check_data harness format (some (object ms)) ≡ ok tt
    → leaf q ms ≡ some v
    → is_object v ≡ false
    → IsPublishable harness format q v
unfolding check_data same decode_object
check_data-IsPublishable harness format ms q v checked at plain =
    >>=-then (sanitize harness format (some (object ms))) _ checked λ k made rest.
      let alike = guard-eq-ok _ "private_or_unknown_field" rest in
      let inner = (both (key_count ms == key_count k.0) (included ms k.0) alike).1 in
      let (w, at', is_same) = included-leaf q ms k.0 v inner at in
      let (allowed, source, known, found, here, (harmless, whence)) =
        sanitize-only harness format (some (object ms)) k q w made at'
          (same-plain v w is_same plain) in
      (allowed, known, here, same-IsHarmless v w is_same harmless)

-- What `Sanitize` makes of any record, `ValidateRecord` takes as data.
pub check_data-sanitize :
    (harness format : String) (body : Option Json) (k : Kept)
    → sanitize harness format body ≡ ok k
    → check_data harness format (some (object k.0)) ≡ ok tt
unfolding check_data decode_object
check_data-sanitize harness format body k e =
    let (diagnostics, again) = sanitize-again harness format body k e in
    rw (again, same_self (object k.0)) refl

-- The data of a record and of its context.
abbrev pub contents : SourceRecord → List (Option Json)
contents r = r.content ∷ map (λ c. c.content) r.context

IsTaken : String → String → Option Json → Type 0
IsTaken harness format content = check_data harness format content ≡ ok tt

check_record-IsTaken :
    (r : SourceRecord) → check_record r ≡ ok tt → IsTaken r.harness r.format r.content
unfolding check_record IsTaken
check_record-IsTaken r e = (>>-eq-ok _ _ (>>-eq-ok _ _ e).1).0

check_contexts-IsTaken :
    (r : SourceRecord) (cs : List NativeContext)
    → check_contexts r cs ≡ ok tt
    → All (IsTaken r.harness r.format) (map (λ c. c.content) cs)
unfolding check_contexts check_context
check_contexts-IsTaken r [] e = tt
check_contexts-IsTaken r (c ∷ cs) e =
    let (here, later) = >>-eq-ok (check_context r c) (check_contexts r cs) e in
    let checked = (>>-eq-ok _ _ (>>-eq-ok _ _ here).1).0 in
    (check_record-IsTaken (clone_of r c) checked, check_contexts-IsTaken r cs later)

validate_record-IsTaken :
    (r : SourceRecord) → validate_record r ≡ ok tt → All (IsTaken r.harness r.format) (contents r)
unfolding validate_record
validate_record-IsTaken r e =
    let (first, rest) = >>-eq-ok _ _ e in
    (check_record-IsTaken r first, check_contexts-IsTaken r r.context (>>-eq-ok _ _ rest).0)

-- A record that `ValidateRecord` takes holds in its own data and in those of its context, objects apart, only
-- values at paths that are allowed for its harness and format, and only harmless ones: no list, at most
-- 256 bytes long, and if a text, without control characters, `@`, backslashes and `://`, and no absolute path, neither
-- with a drive nor without.
pub validate_record-IsPublishable :
    (r : SourceRecord) (i : ℕ) (ms : Members) (q : FieldPath) (v : Json)
    → validate_record r ≡ ok tt
    → get_elem? (contents r) i ≡ some (some (object ms))
    → leaf q ms ≡ some v
    → is_object v ≡ false
    → IsPublishable r.harness r.format q v
unfolding IsTaken
validate_record-IsPublishable r i ms q v e here at plain =
    check_data-IsPublishable r.harness r.format ms q v
      (All-get_elem? (IsTaken r.harness r.format) (contents r) i _ (validate_record-IsTaken r e)
        here)
      at plain
