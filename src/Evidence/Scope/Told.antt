-- ===== src/Evidence/Scope/Told.antt =====
-- How the two kinds of scope are told apart.
use Prim.Native.Char.{code}
use Prim.Native.String
use Prim.Native.String.append
use tokeninsights.Prelude.{
  codes, String, true, false, List, [], ◌∷◌, ◌++◌, ℕ, ◌≡◌, refl, ap, ◌∙◌, arith, ◌==◌, string_eq,
  nat_eq, Bool-cases, inl, inr,
}
use tokeninsights.Evidence.Sanitize.{starts_with}
use tokeninsights.Evidence.Records.{SourceRecord}
use tokeninsights.Evidence.Scope.{scope, is_source_scope, session_scope, native_session}

codes-append : (s t : String) → codes (String.◌++◌ s t) ≡ codes s ++ codes t
codes-append String.[] t = (λ i. codes (append.nil t i))
codes-append (String.◌∷◌ c s) t =
    (λ i. codes (append.cons c s t i)) ∙ ap (λ r. code c ∷ r) (codes-append s t)

starts_with-common :
    (common s t : List ℕ) → starts_with (common ++ s) (common ++ t) ≡ starts_with s t
unfolding starts_with
starts_with-common [] s t = refl
starts_with-common (c ∷ common) s t = ground (arith, starts_with-common common s t)

-- A common beginning does not count.
after_common :
    (common s t : String)
    → starts_with (codes (String.◌++◌ common s)) (codes (String.◌++◌ common t))
      ≡ starts_with (codes s) (codes t)
after_common common s t =
    ap (λ r. starts_with r (codes (String.◌++◌ common t))) (codes-append common s)
    ∙ ap (starts_with (codes common ++ codes s)) (codes-append common t)
    ∙ starts_with-common (codes common) (codes s) (codes t)

extended :
    (s t : String)
    → starts_with (codes s) (codes (String.◌++◌ s t)) ≡ starts_with (codes s) (codes s ++ codes t)
extended s t = ap (starts_with (codes s)) (codes-append s t)

-- The two tags differ.
source_tag : (t : String) → starts_with (codes ":source:") (codes (String.◌++◌ ":source:" t)) ≡ true
unfolding starts_with
source_tag t = extended ":source:" t

session_tag :
    (t : String) → starts_with (codes ":source:") (codes (String.◌++◌ ":session:" t)) ≡ false
unfolding starts_with
session_tag t = ap (starts_with (codes ":source:")) (codes-append ":session:" t)

module _ (tuple : List String → String) where
  -- The prefix by which `NativeRecordKey` knows the scope of a source is there exactly if the native id of the
  -- session is empty.
  is_source_scope-native_session :
      (r : SourceRecord) → is_source_scope tuple r ≡ (native_session r == "")
  unfolding is_source_scope scope session_scope
  is_source_scope-native_session r = elim (Bool-cases (native_session r == "")) [
    | inl none' ↦ rw none' (after_common r.harness ":source:" _ ∙ source_tag _)
    | inr some' ↦ rw some' (after_common r.harness ":source:" _ ∙ session_tag _)
  ]
