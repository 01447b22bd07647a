-- ===== src/Observer/States.antt =====
-- The states of the harnesses in the messages of an observer.
use tokeninsights.Prelude.{
  String, Bool, true, false, ◌||◌, ◌&&◌, [], ◌∷◌, ◌≡◌, refl, arith, ◌==◌, string_eq, if◌then◌else◌,
  one_of, Bool-cases, inl, inr,
}
use tokeninsights.Prelude.Int.{int_eq}
use tokeninsights.Prelude.Maps.{Map, insert}
use tokeninsights.CollectorProgress.Message.{valid_states, valid_harness}
use tokeninsights.Observer.{harness_state}

abbrev known_state : String → Bool
known_state = one_of ("waiting" ∷ "running" ∷ "complete" ∷ "failed" ∷ "skipped" ∷ [])

all_three : (a b c : Bool) → a ≡ true → b ≡ true → c ≡ true → (a && b && c) ≡ true
all_three a b c h k l = rw (h, k, l) refl

three_of : (a b c : Bool) → (a && b && c) ≡ true → (a ≡ true) × (b ≡ true) × (c ≡ true)
three_of a b c h = ground arith

-- The chain of the tests of `harness_state`.
chain :
    (synced skipped failing waits : Bool)
    → known_state (
        if synced
        then "complete"
        else if skipped
        then "skipped"
        else if failing
        then "failed"
        else if waits
        then "waiting"
        else "running")
      ≡ true
chain true b c d = refl
chain false true c d = refl
chain false false true d = refl
chain false false false true = refl
chain false false false false = refl

insert-valid :
    (harness state : String) (m : Map String)
    → valid_harness harness ≡ true
    → known_state state ≡ true
    → valid_states m ≡ true
    → valid_states (insert harness state m) ≡ true
unfolding insert valid_states
insert-valid harness state [] h s v =
    all_three (valid_harness harness) (known_state state) true h s refl
insert-valid harness state ((other, old) ∷ rest) h s v =
    let (h', s', v') = three_of (valid_harness other) (known_state old) (valid_states rest) v in
    elim (Bool-cases (other == harness)) [
      | inl e ↦
          rw (e, insert)
            (all_three (valid_harness harness) (known_state state) (valid_states rest) h s v')
      | inr e ↦
          rw (e, insert)
            (all_three (valid_harness other) (known_state old) _ h' s'
              (insert-valid harness state rest h s v'))
    ]

harness_state-valid : (status : String) → known_state (harness_state status) ≡ true
unfolding harness_state
harness_state-valid status =
    chain (status == "synced") (status == "skipped") (status == "failed") (status == "waiting")

pub new_states :
    (harness status : String) (states : Map String)
    → (harness == "" || valid_harness harness) ≡ true
    → valid_states states ≡ true
    → valid_states (if harness == "" then states else insert harness (harness_state status) states)
      ≡ true
new_states harness status states ok v = elim (Bool-cases (harness == "")) [
  | inl e ↦ rw e v
  | inr e ↦ rw e (
      insert-valid harness (harness_state status) states (rw e at ok) (harness_state-valid status)
        v)
]
