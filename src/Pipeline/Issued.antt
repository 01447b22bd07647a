-- ===== src/Pipeline/Issued.antt =====
-- As long as the context is live, the window (packages/core/pipeline/extract_prepare.go) stays full.
use tokeninsights.Prelude.{
  ℕ, zero, suc, ◌+◌, ◌≤◌, Bool, true, false, ◌&&◌, List, [], ◌∷◌, Option, none, some, ltb, length,
  ◌≡◌, ◌⊎◌, refl, ap, subst, arith, Bool-cases, inl, inr, Option-cases, ◌∙◌,
}
use tokeninsights.CaptureReporter.Protocol.{Op}
use tokeninsights.Pipeline.{
  Status, consumed, opened, prepared, queued, Job, Pool, Prepared, Calls, Action, take, close,
  receive, call_next, set_status, is_opened, is_prepared, is_idle, writer_calls, take_job,
  close_job, receive_job, write_job, issue_next, issue_first, step, run,
}
use tokeninsights.Pipeline.Counted.{Stands-le}
use tokeninsights.Pipeline.Window.{IsSound, some_injective, no_result, step_lem, added}

-- The context is live whenever the writer may let one more source in.
abbrev pub all_live : List Action → Bool
all_live [] = true
all_live (call_next live ∷ actions) = live && all_live actions
all_live (take ∷ actions) = all_live actions
all_live (close i ∷ actions) = all_live actions
all_live (receive r ∷ actions) = all_live actions

-- Every source is issued, or as many as `w` are and not consumed.
abbrev pub IsFull : ℕ → ℕ → Pool → Type 0
IsFull count w p = (length p.jobs ≡ count) × ((p.issued ≡ count) ⊎ (p.issued ≡ p.completed + w))

length-set_status : (i : ℕ) (s : Status) (js : List Job) → length (set_status i s js) ≡ length js
unfolding set_status
length-set_status i s [] = refl
length-set_status zero s (j ∷ js) = refl
length-set_status (suc i) s (j ∷ js) = ap suc (length-set_status i s js)

pub length-issue_first : (n : ℕ) (hs : List ℕ) → length (issue_first n hs) ≡ length hs
unfolding issue_first
length-issue_first n [] = refl
length-issue_first zero (h ∷ hs) = ap suc (length-issue_first zero hs)
length-issue_first (suc n) (h ∷ hs) = ap suc (length-issue_first n hs)

module _ (count w : ℕ) where
  -- Once a source is consumed, the window lets one more in.
  settled-IsFull :
      (p p' : Pool)
      → IsFull count w p
      → p'.completed ≡ p.completed + 1
      → p'.issued ≡ p.issued
      → length p'.jobs ≡ length p.jobs
      → p.issued ≤ length p.jobs
      → IsFull count w (issue_next true p')
  settled-IsFull p p' (all, full) c i l le =
      elim (Bool-cases (ltb p'.issued (length p'.jobs) && true)) [
        | inl more ↦ rw more (
          length-set_status p'.issued queued p'.jobs ∙ l ∙ all,
          elim full [ inl every ↦ absurd (ground arith) | inr some' ↦ inr (omega arith) ],
        )
        | inr last ↦ rw last (l ∙ all, inl (ground arith))
      ]

  same-IsFull :
      (p q : Pool)
      → IsFull count w p
      → length q.jobs ≡ length p.jobs
      → q.issued ≡ p.issued
      → q.completed ≡ p.completed
      → IsFull count w q
  same-IsFull p q (all, full) l i c =
      (l ∙ all, elim full [ inl every ↦ inl (i ∙ every) | inr some' ↦ inr (omega arith) ])

  taken-IsFull :
      (p : Pool) (o : Option Job) (q : Pool) (calls : Calls)
      → IsFull count w p
      → take_job p o ≡ some (q, calls)
      → IsFull count w q
  taken-IsFull p none q calls full e = cc
  taken-IsFull p (some j) q calls full e =
      subst (λ t. IsFull count w t.0) (some_injective e)
        (same-IsFull p (record p { jobs = set_status p.taken opened p.jobs; taken = p.taken + 1 })
          full (length-set_status p.taken opened p.jobs) refl refl)

  closed-IsFull :
      (p : Pool) (i : ℕ) (o : Option Job) (q : Pool) (calls : Calls)
      → IsFull count w p
      → close_job p i o ≡ some (q, calls)
      → IsFull count w q
  closed-IsFull p i none q calls full e = cc
  closed-IsFull p i (some j) q calls full e = elim (Bool-cases (is_opened j.status)) [
    | inl is_open ↦
        subst (λ t. IsFull count w t.0) (some_injective (rw is_open at e))
          (same-IsFull p (record p { jobs = set_status i prepared p.jobs }) full
            (length-set_status i prepared p.jobs) refl refl)
    | inr not_open ↦ absurd (no_result (rw not_open at e))
  ]

  received-IsFull :
      (r : Prepared) (p : Pool) (o : Option Job) (q : Pool) (calls : Calls)
      → IsFull count w p
      → receive_job r p o ≡ some (q, calls)
      → IsFull count w q
  received-IsFull r p none q calls full e = cc
  received-IsFull r p (some j) q calls full e = elim (Bool-cases (is_prepared j.status)) [
    | inl is_ready ↦
        subst (λ t. IsFull count w t.0) (some_injective (rw is_ready at e))
          (same-IsFull p (record p { writing = writer_calls r }) full refl refl refl)
    | inr not_ready ↦ absurd (no_result (rw not_ready at e))
  ]

  written-IsFull :
      (p : Pool) (ops : List Op) (o : Option Job) (q : Pool) (calls : Calls)
      → IsFull count w p
      → p.issued ≤ length p.jobs
      → write_job true p ops o ≡ some (q, calls)
      → IsFull count w q
  written-IsFull p ops none q calls full le e = cc
  written-IsFull p [] (some j) q calls full le e = cc
  written-IsFull p (op ∷ []) (some j) q calls full le e =
      subst (λ t. IsFull count w t.0) (some_injective e)
        (settled-IsFull p
          (record p {
            jobs = set_status p.completed consumed p.jobs;
            completed = p.completed + 1;
            writing = [];
          })
          full refl refl (length-set_status p.completed consumed p.jobs) le)
  written-IsFull p (op ∷ later ∷ ops) (some j) q calls full le e =
      subst (λ t. IsFull count w t.0) (some_injective e)
        (same-IsFull p (record p { writing = later ∷ ops }) full refl refl refl)

  step-IsFull :
      (p : Pool) (action : Action) (q : Pool) (calls : Calls)
      → IsFull count w p
      → p.issued ≤ length p.jobs
      → all_live (action ∷ []) ≡ true
      → step p action ≡ some (q, calls)
      → IsFull count w q
  unfolding step
  step-IsFull p take q calls full le live e = elim (Bool-cases (ltb p.taken p.issued)) [
    | inl lt ↦ taken-IsFull p _ q calls full (rw lt at e)
    | inr ge ↦ absurd (no_result (rw ge at e))
  ]
  step-IsFull p (close i) q calls full le live e = closed-IsFull p i _ q calls full e
  step-IsFull p (receive r) q calls full le live e =
      elim (Bool-cases (is_idle p.writing && ltb p.completed p.issued)) [
        | inl lt ↦ received-IsFull r p _ q calls full (rw lt at e)
        | inr ge ↦ absurd (no_result (rw ge at e))
      ]
  step-IsFull p (call_next true) q calls full le live e = written-IsFull p _ _ q calls full le e
  step-IsFull p (call_next false) q calls full le live e = cc

  first_live :
      (action : Action) (actions : List Action)
      → all_live (action ∷ actions) ≡ true
      → (all_live (action ∷ []) ≡ true) × (all_live actions ≡ true)
  first_live take actions h = (refl, h)
  first_live (close i) actions h = (refl, h)
  first_live (receive r) actions h = (refl, h)
  first_live (call_next live) actions h = ground (arith, h)

  pub run-IsFull :
      (workers : ℕ) (p : Pool) (actions : List Action) (q : Pool) (calls : Calls)
      → IsSound workers p
      → IsFull count w p
      → all_live actions ≡ true
      → run p actions ≡ some (q, calls)
      → IsFull count w q
  unfolding run
  run-IsFull workers p [] q calls sound full live e =
      subst (λ t. IsFull count w t.0) (some_injective e) full
  run-IsFull workers p (action ∷ actions) q calls sound full live e =
      elim (Option-cases (step p action)) [
        | inl stuck ↦ absurd (no_result (rw (stuck, run) at e))
        | inr ((p', first), done) ↦
            let (now, later) = first_live action actions live in
            let (_, le) = Stands-le p.taken p.issued p.jobs sound.0 in
            let full' = step-IsFull p action p' first full le now done in
            let (sound', _) = step_lem workers 0 p action p' first sound done in
            let (more, rest, _) =
              added workers 0 first (run p' actions) q calls (rw (done, run) at e) in
            run-IsFull workers p' actions q more sound' full' later rest
      ]
