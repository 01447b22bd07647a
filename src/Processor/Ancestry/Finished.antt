-- ===== src/Processor/Ancestry/Finished.antt =====
-- What is noted of a session of Codex when it is finished.
use tokeninsights.Prelude.{
  String, ◌≡◌, Bool, true, false, not, ◌&&◌, none, some, ◌==◌, string_eq, if◌then◌else◌, inl, inr,
  Bool-cases,
}
use text.Mathlib.TextPositions.{eq_refl}
use tokeninsights.Prelude.Maps.{Map, lookup, lookup-insert}
use tokeninsights.Processor.Native.{SourceMetadata, text_or}
use tokeninsights.Processor.Session.{CodexSnapshot}
use tokeninsights.Processor.Ancestry.{Ancestry, flag, finish_session}

-- The results that `resolve` cannot have.
pub none-apart : (a : Ancestry) → none ≡ some a → ⊥
none-apart a h = cc

pub some_inj : (a b : Ancestry) → some a ≡ some b → a ≡ b
some_inj a b h = cc

pub apart : (b : Bool) → b ≡ true → b ≡ false → ⊥
apart b h k = cc

abbrev pub is_done : Ancestry → String → Bool
is_done a session = flag (lookup session a.done)

abbrev pub problem_of : Ancestry → String → String
problem_of a session = text_or "" (lookup session a.problems)

both_empty : (p q : String) → ((if not (p == "") then p else q) == "") ≡ ((p == "") && (q == ""))
both_empty p q = elim (Bool-cases (p == "")) [ inl e ↦ rw e | inr e ↦ rw e (rw e) ]

module _ (metadata : Map SourceMetadata)
    (proof_hash : String → String → String → CodexSnapshot → String) where
  -- What `finish_session` notes of the session, and that it leaves the others.
  pub record IsFinished (session problem : String) (a b : Ancestry) : Type 0 where
    pub finished : is_done b session ≡ true
    pub problem_noted :
        (problem_of b session == "") ≡ ((problem_of a session == "") && (problem == ""))
    pub others_done : (s : String) → (session == s) ≡ false → is_done b s ≡ is_done a s
    pub others_problem : (s : String) → (session == s) ≡ false → problem_of b s ≡ problem_of a s
    pub others_visiting :
        (s : String)
        → (session == s) ≡ false
        → flag (lookup s b.visiting) ≡ flag (lookup s a.visiting)
    pub others_sessions :
        (s : String) → (session == s) ≡ false → lookup s b.sessions ≡ lookup s a.sessions
    pub left : flag (lookup session b.visiting) ≡ false

  pub finish_session-IsFinished :
      (session problem : String) (a : Ancestry)
      → IsFinished session problem a (finish_session metadata proof_hash session problem a)
  unfolding finish_session
  finish_session-IsFinished session problem a = record {
    finished = rw (lookup-insert, eq_refl);
    problem_noted = rw (lookup-insert, eq_refl) (both_empty (problem_of a session) problem);
    others_done = λ s h. rw (lookup-insert, h);
    others_problem = λ s h. rw (lookup-insert, h);
    others_visiting = λ s h. rw (lookup-insert, h);
    others_sessions = λ s h. rw (lookup-insert, h);
    left = rw (lookup-insert, eq_refl);
  }
