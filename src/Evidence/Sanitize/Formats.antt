-- ===== src/Evidence/Sanitize/Formats.antt =====
-- That a sanitized record has every allowed field (packages/core/evidence/whitelist.go).
use mathlib.Core.Option
use Prim.Native.Char.{Char, code}
use tokeninsights.Prelude.{
  String, Bool, true, false, not, ◌&&◌, List, [], ◌∷◌, Option, none, some, ◌==◌, nat_eq, string_eq,
  if◌then◌else◌, ◌≡◌, inl, inr, refl, sym, ap, subst, arith, eq_iff, Bool-cases, ◌∙◌,
}
use tokeninsights.Prelude.Results.{ok, ok_inj}
use tokeninsights.Evidence.Json.{Json, Members, end, FieldPath, leaf, set_leaf}
use tokeninsights.Evidence.Json.Leaves.{
  AllUniqueMembers, leaf-set_leaf, leaf-set_leaf-apart, comparable, leaf-end,
}
use tokeninsights.Evidence.Sanitize.{
  opencode_v1, opencode_v2, pi_jsonl, claude_code_jsonl, codex_jsonl, split, extend, clean, Kept,
  keep, keep_all, paths, decode_object, sanitize, sanitize_object,
}
use tokeninsights.Evidence.Sanitize.Kept.{IsAllowed, keep-AllUnique, sanitize-source}

apart_all : FieldPath → List String → Bool
apart_all p [] = true
apart_all p (path ∷ rest) = not (comparable (split path) p) && apart_all p rest

-- No path goes on from another one.
pub prefix_free : List String → Bool
unfolding apart_all comparable split
prefix_free [] = true
prefix_free (path ∷ rest) = apart_all (split path) rest && prefix_free rest

data AreFree : Option (List String) → Type 0 where
  no_format : AreFree none
  some_format : (allowed : List String) → prefix_free allowed ≡ true → AreFree (some allowed)

free_of :
    {o : Option (List String)} (allowed : List String)
    → AreFree o
    → o ≡ some allowed
    → prefix_free allowed ≡ true
free_of allowed no_format e = cc
free_of allowed (some_format other f) e = subst (λ a. prefix_free a ≡ true) (cc e) f

if-AreFree :
    (b : Bool) {x y : Option (List String)} → AreFree x → AreFree y → AreFree (if b then x else y)
if-AreFree true h k = h
if-AreFree false h k = k

formats_free :
    (prefix_free opencode_v1 ≡ true)
    × (prefix_free opencode_v2 ≡ true)
    × (prefix_free ("id" ∷ "project_id" ∷ []) ≡ true)
    × (prefix_free ("id" ∷ "vcs" ∷ []) ≡ true)
    × (prefix_free pi_jsonl ≡ true)
    × (prefix_free claude_code_jsonl ≡ true)
    × (prefix_free codex_jsonl ≡ true)
unfolding prefix_free
formats_free = (refl, refl, refl, refl, refl, refl, refl)

paths-AreFree : (harness format : String) → AreFree (paths harness format)
unfolding paths
paths-AreFree harness format =
    let (v1, v2, session, project, pi, claude, codex) = formats_free in
    if-AreFree (harness == "opencode")
      (if-AreFree (format == "opencode-v1") (some_format _ v1) (
        if-AreFree (format == "opencode-v2") (some_format _ v2) (
          if-AreFree (format == "opencode-session") (some_format _ session)
            (if-AreFree (format == "opencode-project") (some_format _ project) no_format))))
      (if-AreFree (harness == "pi") (if-AreFree (format == "pi-jsonl") (some_format _ pi) no_format)
        (if-AreFree (harness == "claude-code")
          (if-AreFree (format == "claude-code-jsonl") (some_format _ claude) no_format)
          (if-AreFree (harness == "codex")
            (if-AreFree (format == "codex-jsonl") (some_format _ codex) no_format) no_format)))

-- The paths of each format can be set in any order.
pub paths-prefix_free :
    (harness format : String) (allowed : List String)
    → paths harness format ≡ some allowed
    → prefix_free allowed ≡ true
paths-prefix_free harness format allowed e = free_of allowed (paths-AreFree harness format) e

comparable_sym : (p q : FieldPath) → comparable p q ≡ comparable q p
unfolding comparable
comparable_sym [] [] = refl
comparable_sym [] (q ∷ qs) = refl
comparable_sym (p ∷ ps) [] = refl
comparable_sym (p ∷ ps) (q ∷ qs) = elim (Bool-cases (p == q)) [
  | inl e ↦ rw (e, (eq_iff q p).1 (sym ((eq_iff p q).0 e))) (comparable_sym ps qs)
  | inr e ↦ rw (e, other_way p q e) refl
]
  where
    other_way : (k n : String) → (k == n) ≡ false → (n == k) ≡ false
    other_way k n e = ground (arith, eq_iff k n, eq_iff n k)

extend_nonempty :
    (c : Char) (parts : List String) → (p : String) × (ps : List String) × (extend c parts ≡ p ∷ ps)
extend_nonempty c [] = (_, _, refl)
extend_nonempty c (part ∷ parts) = (_, _, refl)

split_nonempty : (s : String) → (p : String) × (ps : List String) × (split s ≡ p ∷ ps)
unfolding split
split_nonempty String.[] = (_, _, refl)
split_nonempty (String.◌∷◌ c rest) = elim (Bool-cases (code c == b'.')) [
  | inl e ↦ rw e (_, _, refl)
  | inr e ↦ rw e (extend_nonempty c (split rest))
]

keep-apart :
    (p q : FieldPath) (o : Option Json) (k : Kept)
    → AllUniqueMembers k.0
    → comparable p q ≡ false
    → leaf q (keep p o k).0 ≡ leaf q k.0
keep-apart p q none k u c = refl
keep-apart p q (some v) k u c = leaf-set_leaf-apart p q (clean v) k.0 u c

both : (a b : Bool) → not a && b ≡ true → (a ≡ false) × (b ≡ true)
both a b e = ground arith

keep_all-apart :
    (source : Members) (rest : List String) (q : FieldPath) (k : Kept)
    → AllUniqueMembers k.0
    → apart_all q rest ≡ true
    → leaf q (keep_all source rest k).0 ≡ leaf q k.0
unfolding keep_all apart_all
keep_all-apart source [] q k u c = refl
keep_all-apart source (path ∷ rest) q k u c =
    let (here, later) = both (comparable (split path) q) (apart_all q rest) c in
    keep_all-apart source rest q _ (keep-AllUnique (split path) _ k u) later
    ∙ keep-apart (split path) q _ k u here

apart_allowed :
    (p q : FieldPath) (rest : List String)
    → apart_all p rest ≡ true
    → IsAllowed q rest
    → comparable p q ≡ false
unfolding apart_all
apart_allowed p q [] c h = absurd h
apart_allowed p q (path ∷ rest) c (inl here) =
    subst (λ r. comparable p r ≡ false) (sym here)
      (comparable_sym p (split path) ∙ (both (comparable (split path) p) (apart_all p rest) c).0)
apart_allowed p q (path ∷ rest) c (inr later) =
    apart_allowed p q rest (both (comparable (split path) p) (apart_all p rest) c).1 later

keep-here :
    (path : String) (o : Option Json) (k : Kept)
    → AllUniqueMembers k.0
    → leaf (split path) k.0 ≡ none
    → leaf (split path) (keep (split path) o k).0 ≡ Option.map clean o
keep-here path none k u n = n
keep-here path (some v) k u n =
    let (p, ps, e) = split_nonempty path in
    subst (λ parts. leaf parts (set_leaf parts (clean v) k.0) ≡ some (clean v)) (sym e)
      (leaf-set_leaf p ps (clean v) k.0 u)

conjuncts : (a b : Bool) → a && b ≡ true → (a ≡ true) × (b ≡ true)
conjuncts a b e = ground arith

-- Every allowed path holds what is kept of the source.
pub keep_all-here :
    (source : Members) (allowed : List String) (q : FieldPath) (k : Kept)
    → AllUniqueMembers k.0
    → prefix_free allowed ≡ true
    → IsAllowed q allowed
    → leaf q k.0 ≡ none
    → leaf q (keep_all source allowed k).0 ≡ Option.map clean (leaf q source)
unfolding keep_all prefix_free
keep_all-here source [] q k u f h n = absurd h
keep_all-here source (path ∷ rest) q k u f (inl here) n =
    let (apart, free) = conjuncts _ _ f in
    subst
      (λ r.
        leaf r (keep_all source rest (keep (split path) (leaf (split path) source) k)).0
        ≡ Option.map clean (leaf r source))
      (sym here)
      (keep_all-apart source rest (split path) _ (keep-AllUnique (split path) _ k u) apart
        ∙ keep-here path _ k u (subst (λ r. leaf r k.0 ≡ none) here n))
keep_all-here source (path ∷ rest) q k u f (inr later) n =
    let (apart, free) = conjuncts _ _ f in
    keep_all-here source rest q _ (keep-AllUnique (split path) _ k u) free later
      (keep-apart (split path) q _ k u (apart_allowed (split path) q rest apart later) ∙ n)

-- Each path that is allowed holds in a sanitized record what `clean` keeps of the value that the source
-- holds there, and nothing where the source holds nothing.
pub sanitize-here :
    (harness format : String) (body : Option Json) (k : Kept) (allowed : List String)
    (source : Members) (q : FieldPath)
    → sanitize harness format body ≡ ok k
    → paths harness format ≡ some allowed
    → decode_object body ≡ ok source
    → IsAllowed q allowed
    → leaf q k.0 ≡ Option.map clean (leaf q source)
sanitize-here harness format body k allowed source q e known found here =
    let (allowed', source', known', found', same) = sanitize-source harness format body k e in
    let is_source : source' ≡ source = ok_inj _ _ (sym found' ∙ found) in
    let is_allowed : allowed' ≡ allowed = some_inj (sym known' ∙ known) in
    subst (λ m. leaf q m ≡ Option.map clean (leaf q source))
      (ap (λ j. j.0)
        (subst (λ s. sanitize_object harness s allowed ≡ k) is_source
          (subst (λ a. sanitize_object harness source' a ≡ k) is_allowed same)))
      (keep_all-here source allowed q (end, []) tt (paths-prefix_free harness format allowed known)
        here (leaf-end q))
  where
    some_inj : {a b : List String} → some a ≡ some b → a ≡ b
    some_inj e = cc
