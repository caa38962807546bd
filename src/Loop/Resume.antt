-- ===== src/Loop/Resume.antt =====
-- `reconcileResume` of internal/agent/eventloop/eventloop.go: one-shot crash recovery.
use amplio.Common.{
  ℕ, ◌+◌, ◌-◌, String, Bool, true, false, ◌||◌, ◌&&◌, List, [], ◌∷◌, Option, none, some, ltb, leb,
  ◌==◌, str_eq, if◌then◌else◌, any,
}
use amplio.Event.{Event, Assistant, Refusal, idle, assistant, user, is_nil}
use amplio.Db.Types.{SessionRecord, EventRecord, current_context}
use amplio.Db.State.{Store, Driver, Result, ok, err}
use amplio.Db.Sessions.{update_session_status, mark_step_finalized}
use amplio.Db.Events.{append_event, get_events, last_row}
use amplio.Loop.Text.{is_degenerate_turn, is_output_limit_stop_reason}
use amplio.Loop.Agent.{
  Config, Failure, store_failure, output_limited, empty_result, Agent, max_conclude_nudges,
  max_output_limit_nudges, refusal_error, conclude, record_failure,
}
use amplio.Loop.Orphans.{repair_orphan_tool_calls}
use amplio.Loop.Turn.{Next, again, return, output_limit_nudge_text, conclude_nudge_text}

abbrev count_nudge : Event → ℕ → ℕ
count_nudge (assistant a) n = if is_nil a.tool_calls then n else 0
count_nudge (user content) n = if str_eq content output_limit_nudge_text then n + 1 else n
count_nudge _ n = n

-- `outputLimitNudgesFromHistory`
unfoldable pub nudges_from : List EventRecord → ℕ → ℕ
nudges_from [] n = n
nudges_from (x ∷ xs) n = nudges_from xs (count_nudge x.event n)

unfoldable pub output_limit_nudges_from_history : List EventRecord → ℕ
unfolding nudges_from
output_limit_nudges_from_history rows = nudges_from rows 0

abbrev pub is_assistant : Event → Bool
is_assistant (assistant a) = true
is_assistant _ = false

-- `hasAssistantAtStep`
unfoldable pub has_assistant_at_step : List EventRecord → ℕ → Bool
has_assistant_at_step rows step = any (λ x. x.step == step && is_assistant x.event) rows

unfoldable pub max_assistant_step : List EventRecord → ℕ → ℕ
max_assistant_step [] n = n
max_assistant_step (x ∷ xs) n =
    max_assistant_step xs (if is_assistant x.event && ltb n x.step then x.step else n)

abbrev bare : Event → Option Assistant
bare (assistant a) = if is_nil a.tool_calls then some a else none
bare _ = none

-- `tailAssistantAtRest`
unfoldable pub tail_assistant_at_rest : List EventRecord → Option Assistant
tail_assistant_at_rest rows = elim (last_row rows) [ none ↦ none | some x ↦ bare x.event ]

-- The results (handled, needsAdvance) and the error.
pub data Resumed : Type 0 where
  handled : Resumed
  go_on : Bool → Resumed
  failed : Failure → Resumed

module _ (v : Driver) (render : Failure → String) (cfg : Config) where
  -- A nudge in place of a conclusion.
  unfoldable pub resume_nudge : String → Agent → Resumed × Agent
  resume_nudge text a =
      let (result, d) = append_event v cfg.run_id cfg.session_id (user text) a.db in
      elim result [
        | err e ↦ (failed (store_failure e), record a { db = d })
        | ok id ↦ (go_on true, record a { db = d })
      ]

  unfoldable pub resume_conclude : String → Agent → Resumed × Agent
  resume_conclude content a =
      let (f, a') = conclude v render cfg content a in
      elim f [ some e ↦ (failed e, a') | none ↦ (handled, a') ]

  unfoldable pub resume_output_limit : Assistant → Agent → Resumed × Agent
  resume_output_limit tail a =
      if leb max_output_limit_nudges a.output_limit_nudges
      then (failed (output_limited tail.stop_reason), a)
      else resume_nudge output_limit_nudge_text
          (record a { output_limit_nudges = a.output_limit_nudges + 1 })

  unfoldable pub resume_degenerate : Assistant → Agent → Resumed × Agent
  resume_degenerate tail a =
      if leb max_conclude_nudges a.conclude_nudges
      then (failed (empty_result tail.stop_reason), a)
      else resume_nudge conclude_nudge_text (record a { conclude_nudges = a.conclude_nudges + 1 })

  unfoldable pub resume_answer : Option Refusal → Assistant → Agent → Resumed × Agent
  resume_answer (some f) tail a =
      (failed (refusal_error tail.stop_reason f.category f.explanation), a)
  resume_answer none tail a =
      if is_output_limit_stop_reason tail.stop_reason
      then resume_output_limit tail a
      else if is_degenerate_turn tail.content
      then resume_degenerate tail a
      else resume_conclude tail.content a

  -- The stream ends in a bare turn of an autonomous agent: the guards of the live loop again.
  unfoldable pub resume_autonomous : Assistant → Agent → Resumed × Agent
  unfolding resume_answer
  resume_autonomous tail a = resume_answer tail.refusal tail a

  unfoldable pub resume_interactive : Agent → Resumed × Agent
  resume_interactive a =
      let (result, d) = update_session_status v cfg.run_id cfg.session_id idle a.db in
      elim result [
        | err e ↦ (failed (store_failure e), record a { db = d })
        | ok _ ↦ (go_on true, record a { db = d })
      ]

  -- After the repairs: at rest, or on with the loop. The LLM call of a step with no assistant
  -- event is made again at that step.
  unfoldable pub resume_tail : List EventRecord → SessionRecord → Agent → Resumed × Agent
  unfolding resume_autonomous resume_interactive
  resume_tail rows sess a = elim (tail_assistant_at_rest rows) [
    | some tail ↦ if cfg.interactive then resume_interactive a else resume_autonomous tail a
    | none ↦
        (go_on (leb sess.current_step 1 || has_assistant_at_step rows (sess.current_step - 1)), a)
  ]

  -- The finalized cursor is moved over a complete step that the crash left behind.
  unfoldable pub finalize_recovered :
      List EventRecord → SessionRecord → Store → Result (Unit {0}) × Store
  finalize_recovered rows sess d =
      let n = max_assistant_step rows 0 in
      if ltb sess.last_finalized_step n
      then mark_step_finalized v cfg.run_id cfg.session_id n d
      else (ok tt, d)

  unfoldable pub reconcile_resume : SessionRecord → Agent → Resumed × Agent
  unfolding resume_tail finalize_recovered
  reconcile_resume sess a = elim (get_events v cfg.run_id cfg.session_id current_context a.db).0 [
    | err e ↦ (failed (store_failure e), a)
    | ok rows ↦
        let counted = record a { output_limit_nudges = output_limit_nudges_from_history rows } in
        let (repaired, d1) = repair_orphan_tool_calls v cfg.run_id cfg.session_id rows a.db in
        elim repaired [
          | err e ↦ (failed (store_failure e), record counted { db = d1 })
          | ok _ ↦
              let (marked, d2) = finalize_recovered rows sess d1 in
              elim marked [
                | err e ↦ (failed (store_failure e), record counted { db = d2 })
                | ok _ ↦ resume_tail rows sess (record counted { db = d2 })
              ]
        ]
  ]

  -- What `Run` makes of it at once: a failure is recorded, a handled session returns, else it goes on,
  -- with the read of the session and the wait of one that is not ongoing, which are left out.
  unfoldable pub run_resumed : Bool → Resumed × Agent → Next × Agent
  run_resumed ctx_err (handled, a) = (return none, a)
  run_resumed ctx_err (go_on b, a) = (again b, a)
  run_resumed ctx_err (failed f, a) =
      let (e, a') = record_failure v render cfg ctx_err f a in (return e, a')
