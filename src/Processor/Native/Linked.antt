-- ===== src/Processor/Native/Linked.antt =====
-- What the metadata of a Codex session say of its parent.
use tokeninsights.Prelude.{
  String, ◌≡◌, refl, sym, subst, false, Option, none, some, ◌==◌, string_eq, inl, inr, Bool-cases,
  Option-cases, arith, eq_iff, ◌⊎◌,
}
use tokeninsights.Processor.Native.{
  Native, null, other, number, text, object, Fields, field_of, fields_of, nested, given_text,
  trim_text, text_of, string_field, SourceMetadata, is_set, refer, note_parent,
  metadata_from_payload,
}

given_text_lem : (s r : String) → given_text s ≡ some r → (r == "") ≡ false
unfolding given_text
given_text_lem s r h = elim (Bool-cases (trim_text s == "")) [
  | inl e ↦ cc (rw e at h)
  | inr e ↦ subst (λ t. (t == "") ≡ false) (some_inj _ _ (rw e at h)) e
]
  where
    some_inj : (a b : String) → some a ≡ some b → a ≡ b
    some_inj a b k = cc

text_of_given : (v : Option Native) (r : String) → text_of v ≡ some r → (r == "") ≡ false
text_of_given (some (text s)) r h = given_text_lem s r h
text_of_given (some null) r h = cc
text_of_given (some other) r h = cc
text_of_given (some (number n)) r h = cc
text_of_given (some (object fs)) r h = cc
text_of_given none r h = cc

-- The reference in a field, if it is set, is to that parent.
abbrev pub IsReference : Fields → String → String → Type 0
IsReference fs name parent =
    (is_set (field_of name fs) ≡ false) ⊎ (string_field fs name ≡ some parent)

record IsNoted (fs : Fields) (name : String) (m n : SourceMetadata) : Type 0 where
  no_conflict : m.conflict ≡ false
  reference : IsReference fs name n.parent_id
  kept : (m.parent_id ≡ "") ⊎ (n.parent_id ≡ m.parent_id)

refer_lem :
    (m : SourceMetadata) (parent : String)
    → (refer (some parent) m).conflict ≡ false
    → (m.conflict ≡ false) × ((m.parent_id ≡ "") ⊎ (parent ≡ m.parent_id))
refer_lem m parent h = ground (arith, eq_iff m.parent_id "", eq_iff m.parent_id parent)

note_parent-IsNoted :
    (fs : Fields) (name : String) (m : SourceMetadata)
    → (note_parent fs name m).conflict ≡ false
    → IsNoted fs name m (note_parent fs name m)
unfolding note_parent
note_parent-IsNoted fs name m h = elim (Bool-cases (is_set (field_of name fs))) [
  | inr e ↦ rw e (record { no_conflict = rw e at h; reference = inl e; kept = inr refl })
  | inl e ↦ elim (Option-cases (string_field fs name)) [
    | inl f ↦ cc (rw (e, f) at h)
    | inr (parent, f) ↦
        let (clean, kept) = refer_lem m parent (rw (e, f) at h) in
        rw (e, f) (record { no_conflict = clean; reference = inr f; kept = kept })
  ]
]

IsReference-kept :
    (fs : Fields) (name p r : String)
    → IsReference fs name p
    → (p ≡ "") ⊎ (r ≡ p)
    → IsReference fs name r
unfolding string_field
IsReference-kept fs name p r (inl e) k = inl e
IsReference-kept fs name p r (inr e) (inr same) =
    inr (subst (λ q. string_field fs name ≡ some q) (sym same) e)
IsReference-kept fs name p r (inr e) (inl empty) =
    cc ((eq_iff p "").1 empty, text_of_given (field_of name fs) p e)

abbrev pub spawn_of : Option Fields → Fields
spawn_of payload = fields_of (nested (nested (nested payload "source") "subagent") "thread_spawn")

-- Where the metadata of a session report no conflict, each of the three fields that can name a
-- parent names the parent that they have, if it is set.
pub metadata_from_payload-IsReference :
    (payload : Option Fields) (fallback : String)
    → (metadata_from_payload payload fallback).conflict ≡ false
    → let parent = (metadata_from_payload payload fallback).parent_id in
      IsReference (fields_of payload) "forked_from_id" parent
      × IsReference (fields_of payload) "parent_thread_id" parent
      × IsReference (spawn_of payload) "parent_thread_id" parent
unfolding metadata_from_payload
metadata_from_payload-IsReference payload fallback h =
    let third = note_parent-IsNoted (spawn_of payload) "parent_thread_id" _ h in
    let second = note_parent-IsNoted (fields_of payload) "parent_thread_id" _ third.no_conflict in
    let first = note_parent-IsNoted (fields_of payload) "forked_from_id" _ second.no_conflict in
    (
      IsReference-kept _ _ _ _ (IsReference-kept _ _ _ _ first.reference second.kept) third.kept,
      IsReference-kept _ _ _ _ second.reference third.kept,
      third.reference,
    )
