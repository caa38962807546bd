-- ===== src/Loop/Verdict.antt =====
-- How bare turns end in the live loop and in the recovery of
-- internal/agent/eventloop/eventloop.go.
use amplio.Common.{
  ℕ, true, sym, subst, ◌+◌, ◌≡◌, inl, inr, refl, String, Bool, false, Option, none, some, arith,
  Bool-cases, leb,
}
use amplio.Event.{Assistant, Refusal}
use amplio.Db.State.{Driver, ok}
use amplio.Db.Events.{get_event_count}
use amplio.Loop.Text.{is_degenerate_turn, is_output_limit_stop_reason}
use amplio.Loop.Agent.{
  Config, Failure, Agent, conclude, cascade_cancel_children, record_failure,
  max_output_limit_nudges, max_conclude_nudges, is_store_failure, refusal_error, output_limited,
  empty_result,
}
use amplio.Loop.Turn.{
  Next, again, park, fail, failed, return, Steps, settle_turn, settle_autonomous, settle_answer,
  settle_output_limit, settle_degenerate, nudge, output_limit_nudge_text, conclude_nudge_text,
}
use amplio.Loop.Resume.{
  resume_autonomous, resume_answer, resume_output_limit, resume_degenerate, resume_nudge,
  resume_conclude, run_resumed,
}

module _ (v : Driver) (render : Failure → String) (cfg : Config) where
  nudge_agrees :
      (text : String) (a : Agent)
      → run_resumed v render cfg false (resume_nudge v render cfg text a)
        ≡ nudge v render cfg false text a
  unfolding run_resumed resume_nudge nudge
  nudge_agrees text a = ground arith

  conclude_agrees :
      (content : String) (a : Agent)
      → run_resumed v render cfg false (resume_conclude v render cfg content a)
        ≡ (return (conclude v render cfg content a).0, (conclude v render cfg content a).1)
  unfolding run_resumed resume_conclude conclude record_failure is_store_failure
  conclude_agrees content a = ground arith

  output_limit_agrees :
      (tail : Assistant) (a : Agent)
      → run_resumed v render cfg false (resume_output_limit v render cfg tail a)
        ≡ settle_output_limit v render cfg false tail a
  unfolding resume_output_limit settle_output_limit
  output_limit_agrees tail a =
      elim (Bool-cases (leb max_output_limit_nudges a.output_limit_nudges)) [
        | inl spent ↦ rw spent (unfold run_resumed in refl)
        | inr left ↦ rw left (
            nudge_agrees output_limit_nudge_text
              (record a { output_limit_nudges = a.output_limit_nudges + 1 }))
      ]

  degenerate_agrees :
      (tail : Assistant) (a : Agent)
      → run_resumed v render cfg false (resume_degenerate v render cfg tail a)
        ≡ settle_degenerate v render cfg false tail a
  unfolding resume_degenerate settle_degenerate
  degenerate_agrees tail a = elim (Bool-cases (leb max_conclude_nudges a.conclude_nudges)) [
    | inl spent ↦ rw spent (unfold run_resumed in refl)
    | inr left ↦
        rw left
          (nudge_agrees conclude_nudge_text (record a { conclude_nudges = a.conclude_nudges + 1 }))
  ]

  answer_agrees :
      (o : Option Refusal) (tail : Assistant) (a : Agent)
      → run_resumed v render cfg false (resume_answer v render cfg o tail a)
        ≡ settle_answer v render cfg false o tail a
  unfolding resume_answer settle_answer
  answer_agrees (some f) tail a = unfold run_resumed in refl
  answer_agrees none tail a = elim (Bool-cases (is_output_limit_stop_reason tail.stop_reason)) [
    | inl cut ↦ rw cut (output_limit_agrees tail a)
    | inr whole ↦ elim (Bool-cases (is_degenerate_turn tail.content)) [
      | inl empty ↦ rw (whole, empty) (degenerate_agrees tail a)
      | inr full ↦ rw (whole, full) (conclude_agrees tail.content a)
    ]
  ]

  resumed_as_settled :
      (tail : Assistant) (a : Agent)
      → run_resumed v render cfg false (resume_autonomous v render cfg tail a)
        ≡ settle_autonomous v render cfg false tail a
  unfolding resume_autonomous settle_autonomous
  resumed_as_settled tail a = answer_agrees tail.refusal tail a

  abbrev pub at_step : Option ℕ → Agent → Agent
  at_step c a = record a { call_step = c }

  -- Whether the loop returns an error.
  abbrev pub is_failure : Next → Bool
  is_failure (again b) = false
  is_failure (return none) = false
  is_failure (return (some f)) = true
  is_failure park = false

  -- The same verdict, and but for the call step the same state, unless it is a failure.
  abbrev pub Agrees : Next × Agent → Next × Agent → Type 0
  Agrees (m, a) (n, b) = (m ≡ n) × (is_failure n ≡ false → at_step none a ≡ at_step none b)

  nudge_step :
      (text : String) (c : Option ℕ) (a : Agent)
      → Agrees
          (nudge v render cfg false text (at_step none a))
          (nudge v render cfg false text (at_step c a))
  unfolding nudge record_failure is_store_failure
  nudge_step text c a = ground arith

  fail_step :
      (f : Failure) (c : Option ℕ) (a : Agent)
      → Agrees
          (fail v render cfg false f (at_step none a))
          (fail v render cfg false f (at_step c a))
  unfolding record_failure is_store_failure
  fail_step f c a = ground arith

  conclude_step :
      (content : String) (c : Option ℕ) (a : Agent)
      → Agrees
          (failed v render cfg (conclude v render cfg content (at_step none a)))
          (failed v render cfg (conclude v render cfg content (at_step c a)))
  unfolding conclude cascade_cancel_children
  conclude_step content c a = ground arith

  answer_step :
      (o : Option Refusal) (tail : Assistant) (c : Option ℕ) (a : Agent)
      → Agrees
          (settle_answer v render cfg false o tail (at_step none a))
          (settle_answer v render cfg false o tail (at_step c a))
  unfolding settle_answer settle_output_limit settle_degenerate
  answer_step (some f) tail c a =
      fail_step (refusal_error tail.stop_reason f.category f.explanation) c a
  answer_step none tail c a = elim (Bool-cases (is_output_limit_stop_reason tail.stop_reason)) [
    | inl cut ↦ elim (Bool-cases (leb max_output_limit_nudges a.output_limit_nudges)) [
      | inl spent ↦ rw (cut, spent) (fail_step (output_limited tail.stop_reason) c a)
      | inr left ↦
          rw (cut, left)
            (nudge_step output_limit_nudge_text c
              (record a { output_limit_nudges = a.output_limit_nudges + 1 }))
    ]
    | inr whole ↦ elim (Bool-cases (is_degenerate_turn tail.content)) [
      | inr full ↦ rw (whole, full) (conclude_step tail.content c a)
      | inl empty ↦ elim (Bool-cases (leb max_conclude_nudges a.conclude_nudges)) [
        | inl spent ↦ rw (whole, empty, spent) (fail_step (empty_result tail.stop_reason) c a)
        | inr left ↦
            rw (whole, empty, left)
              (nudge_step conclude_nudge_text c
                (record a { conclude_nudges = a.conclude_nudges + 1 }))
      ]
    ]
  ]

  -- A bare turn that recovery finds at the end of a stream, outside any turn, is settled as the live
  -- loop settles it at whatever call step, while the context is not done: with the same nudge,
  -- failure or conclusion, and, unless it is a failure, with the same store, registry and counters.
  -- (A failure records its crash marker at the call step, which recovery does not have.)
  pub recovery_settles_as_live :
      (tail : Assistant) (c : Option ℕ) (a : Agent)
      → Agrees
          (run_resumed v render cfg false (resume_autonomous v render cfg tail (at_step none a)))
          (settle_autonomous v render cfg false tail (at_step c a))
  unfolding settle_autonomous
  recovery_settles_as_live tail c a =
      subst (λ r. Agrees r (settle_answer v render cfg false tail.refusal tail (at_step c a)))
        (sym (resumed_as_settled tail (at_step none a))) (answer_step tail.refusal tail c a)

  -- What the nudges of the two budgets have in common with the state that they leave.
  nudge_counts :
      (ctx_err : Bool) (text : String) (a : Agent)
      → ((nudge v render cfg ctx_err text a).1.conclude_nudges ≡ a.conclude_nudges)
        × ((nudge v render cfg ctx_err text a).1.output_limit_nudges ≡ a.output_limit_nudges)
  unfolding nudge record_failure
  nudge_counts ctx_err text a = ground arith

  cascade_counts :
      (content : String) (a : Agent)
      → ((conclude v render cfg content a).1.conclude_nudges ≡ a.conclude_nudges)
        × ((conclude v render cfg content a).1.output_limit_nudges ≡ a.output_limit_nudges)
  unfolding conclude cascade_cancel_children
  cascade_counts content a = ground arith

  -- An autonomous agent that ends a bare turn without an error, with its context not done, has
  -- concluded on a real result: nothing waits at the next step, the provider did not refuse, the
  -- output was not cut off, and the text is not empty.
  pub conclusion_is_deliberate :
      (st : Steps) (resp : Assistant) (a : Agent)
      → cfg.interactive ≡ false
      → (settle_turn v render cfg false st resp a).0 ≡ return none
      → ((get_event_count v cfg.run_id cfg.session_id
            (record {
              current_context_only = false;
              start_step = some st.new_step;
              end_step = none;
            })
            a.db).0
          ≡ ok 0)
        × (resp.refusal ≡ none)
        × (is_output_limit_stop_reason resp.stop_reason ≡ false)
        × (is_degenerate_turn resp.content ≡ false)
  unfolding settle_turn settle_autonomous settle_output_limit settle_degenerate nudge record_failure
  conclusion_is_deliberate st resp a auto done = ground arith
