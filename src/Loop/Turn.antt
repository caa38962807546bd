-- ===== src/Loop/Turn.antt =====
-- One iteration of `loop` of internal/agent/eventloop/eventloop.go, in three parts: what comes
-- before the LLM call, what follows its reply, and what a bare turn leads to. While the call runs
-- the environment may do anything to the store between the parts.
use amplio.Common.{
  ℕ, ◌+◌, ◌-◌, String, Bool, true, false, not, ◌&&◌, ◌||◌, ◌⊎◌, inl, inr, List, [], ◌∷◌, Option,
  none, some, ltb, leb, if◌then◌else◌,
}
use amplio.Event.{
  Assistant, Refusal, ToolResult, idle, ongoing, assistant, tool_result, user, is_nil,
}
use amplio.Db.Types.{EventRecord, EventFilter}
use amplio.Db.State.{Store, Driver, Error, Result, ok, err}
use amplio.Db.Sessions.{get_session, advance_step, update_session_status, mark_step_finalized}
use amplio.Db.Events.{
  append_event, append_event_at_step, finalize_step, get_events, get_event_count,
}
use amplio.Db.Compact.{compact_context}
use amplio.Loop.Text.{is_degenerate_turn, is_output_limit_stop_reason}
use amplio.Loop.Agent.{
  Config, Failure, store_failure, output_limited, empty_result, llm_failed, Agent,
  max_conclude_nudges, max_output_limit_nudges, refusal_error, conclude, record_failure,
}
use amplio.Loop.Park.{FollowUp, woken, idle_timeout, ctx_cancelled}

abbrev pub output_limit_nudge_text : String
output_limit_nudge_text =
    "[system] Your previous turn reached the model's output-token limit before completing the task. Continue any unfinished work as needed. When finished, reply with a concise, self-contained final result (no tool calls). That complete turn IS your result; do not merely continue the cut-off prose."

abbrev pub conclude_nudge_text : String
conclude_nudge_text =
    "[system] Your previous turn produced no tool calls and no message text, so it does not look like a deliberate completion. If the task is genuinely finished, reply with a concise final summary (no tool calls) — that summary IS your result. Otherwise, continue working with the appropriate tool calls."

abbrev pub max_consecutive_compactions : ℕ
max_consecutive_compactions = 3

-- What an iteration ends in: another one (with `needsAdvance`), a return, or an idle park.
pub data Next : Type 0 where
  again : Bool → Next
  return : Option Failure → Next
  park : Next

-- The steps of a turn.
pub record Steps : Type 0 where
  pub call_step : ℕ
  pub new_step : ℕ

module _ (v : Driver) (render : Failure → String) (cfg : Config) where
  abbrev pub failed : Option Failure × Agent → Next × Agent
  failed (f, a) = (return f, a)

  abbrev left {ℓ} : {A : Type ℓ} → Next × Agent → (Next ⊎ A) × Agent
  left (n, a) = (inl n, a)

  abbrev pub fail : Bool → Failure → Agent → Next × Agent
  fail ctx_done f a = failed (record_failure v render cfg ctx_done f a)

  -- The call step: the bump first, or on a resumed call the step that was bumped already.
  unfoldable pub determine_step : Bool → Store → Result Steps × Store
  determine_step needs_advance d =
      if needs_advance
      then (let (result, d') = advance_step v cfg.run_id cfg.session_id d in
          elim result [
            | err e ↦ (err e, d')
            | ok n ↦ (ok (record { call_step = n - 1; new_step = n }), d')
          ])
      else elim (get_session v cfg.run_id cfg.session_id d).0 [
        | err e ↦ (err e, d)
        | ok x ↦ (ok (record { call_step = x.current_step - 1; new_step = x.current_step }), d)
      ]

  -- The context of the call: bootstrap and current generation, up to the call step.
  abbrev pub call_filter : ℕ → EventFilter
  call_filter n = record { current_context_only = true; start_step = none; end_step = some n }

  -- Up to the LLM call: the steps and the context that it is made with, or the way out.
  -- `ctx_err`: whether the context is done when a failure is recorded.
  unfoldable pub begin_turn :
      Bool → Bool → Bool → Agent → (Next ⊎ (Steps × List EventRecord)) × Agent
  unfolding determine_step
  begin_turn ctx_done ctx_err needs_advance a =
      let (stepped, d) = determine_step needs_advance a.db in
      let before = record a { call_step = none; db = d } in
      elim ctx_done [
        | true ↦ (inl (return none), a)
        | false ↦ elim stepped [
          | err e ↦ left (fail ctx_err (store_failure e) before)
          | ok st ↦
              let during = record a { call_step = some st.call_step; db = d } in
              elim (get_events v cfg.run_id cfg.session_id (call_filter st.call_step) d).0 [
                | err e ↦ left (fail ctx_err (store_failure e) during)
                | ok rows ↦ (inr (st, rows), during)
              ]
        ]
      ]

  -- The results, in the order in which the tools finish; the first failed append ends the writes.
  unfoldable pub append_tool_results : ℕ → List ToolResult → Store → Option Error × Store
  append_tool_results step [] d = (none, d)
  append_tool_results step (t ∷ ts) d =
      let (result, d') = append_event_at_step v cfg.run_id cfg.session_id step (tool_result t) d in
      let rest = append_tool_results step ts d' in
      elim result [ err e ↦ (some e, d') | ok _ ↦ rest ]

  -- A turn with tool calls: the assistant event, the results, the finalized step.
  unfoldable pub finish_tool_turn :
      Bool → Steps → Assistant → List ToolResult → Agent → Next × Agent
  unfolding append_tool_results
  finish_tool_turn ctx_err st resp results a =
      let reset = record a { conclude_nudges = 0; output_limit_nudges = 0 } in
      let (wrote, d1) =
        append_event_at_step v cfg.run_id cfg.session_id st.call_step (assistant resp) a.db in
      let (lost, d2) = append_tool_results st.call_step results d1 in
      let (marked, d3) = mark_step_finalized v cfg.run_id cfg.session_id st.call_step d2 in
      elim wrote [
        | err e ↦ fail ctx_err (store_failure e) (record reset { db = d1 })
        | ok _ ↦ elim lost [
          | some e ↦ fail ctx_err (store_failure e) (record reset { db = d2 })
          | none ↦ elim marked [
            | err e ↦ fail ctx_err (store_failure e) (record reset { db = d3 })
            | ok _ ↦ (again true, record reset { db = d3 })
          ]
        ]
      ]

  -- A nudge is a user event at the current step; the next turn reads it.
  unfoldable pub nudge : Bool → String → Agent → Next × Agent
  nudge ctx_err text a =
      let (result, d) = append_event v cfg.run_id cfg.session_id (user text) a.db in
      elim result [
        | err e ↦ fail ctx_err (store_failure e) (record a { db = d })
        | ok id ↦ (again true, record a { db = d })
      ]

  -- The guards on a bare turn of an autonomous agent, in the order of the source.
  unfoldable pub settle_output_limit : Bool → Assistant → Agent → Next × Agent
  settle_output_limit ctx_err resp a =
      if leb max_output_limit_nudges a.output_limit_nudges
      then fail ctx_err (output_limited resp.stop_reason) a
      else nudge ctx_err output_limit_nudge_text
          (record a { output_limit_nudges = a.output_limit_nudges + 1 })

  unfoldable pub settle_degenerate : Bool → Assistant → Agent → Next × Agent
  settle_degenerate ctx_err resp a =
      if leb max_conclude_nudges a.conclude_nudges
      then fail ctx_err (empty_result resp.stop_reason) a
      else nudge ctx_err conclude_nudge_text (record a { conclude_nudges = a.conclude_nudges + 1 })

  unfoldable pub settle_answer : Bool → Option Refusal → Assistant → Agent → Next × Agent
  settle_answer ctx_err (some f) resp a =
      fail ctx_err (refusal_error resp.stop_reason f.category f.explanation) a
  settle_answer ctx_err none resp a =
      if is_output_limit_stop_reason resp.stop_reason
      then settle_output_limit ctx_err resp a
      else if is_degenerate_turn resp.content
      then settle_degenerate ctx_err resp a
      else failed (conclude v render cfg resp.content a)

  unfoldable pub settle_autonomous : Bool → Assistant → Agent → Next × Agent
  unfolding settle_answer
  settle_autonomous ctx_err resp a = settle_answer ctx_err resp.refusal resp a

  -- An interactive agent goes idle; the wait is in `Park`.
  unfoldable pub settle_interactive : Bool → Agent → Next × Agent
  settle_interactive ctx_err a =
      let (result, d) = update_session_status v cfg.run_id cfg.session_id idle a.db in
      elim result [
        | err e ↦ fail ctx_err (store_failure e) (record a { db = d })
        | ok _ ↦ (park, record a { db = d })
      ]

  -- What follows the write of a bare turn: any event that has arrived means another turn.
  unfoldable pub settle_turn : Bool → Steps → Assistant → Agent → Next × Agent
  settle_turn ctx_err st resp a =
      elim (get_event_count v cfg.run_id cfg.session_id
        (record { current_context_only = false; start_step = some st.new_step; end_step = none })
        a.db).0 [
          | err e ↦ fail ctx_err (store_failure e) a
          | ok n ↦
              if ltb 0 n
              then (again true, a)
              else if cfg.interactive
              then settle_interactive ctx_err a
              else settle_autonomous ctx_err resp a
        ]

  -- What follows the reply of the LLM.
  unfoldable pub finish_turn : Bool → Steps → Assistant → List ToolResult → Agent → Next × Agent
  unfolding finish_tool_turn settle_turn
  finish_turn ctx_err st resp results a =
      if not (is_nil resp.tool_calls)
      then finish_tool_turn ctx_err st resp results a
      else (let (result, d) =
            finalize_step v cfg.run_id cfg.session_id st.call_step (assistant resp ∷ []) a.db in
          elim result [
            | err e ↦ fail ctx_err (store_failure e) (record a { db = d })
            | ok _ ↦ settle_turn ctx_err st resp (record a { db = d })
          ])

  -- After the idle park.
  unfoldable pub after_park : Bool → FollowUp → Agent → Next × Agent
  after_park ctx_err ctx_cancelled a = (return none, a)
  after_park ctx_err idle_timeout a = (return none, a)
  after_park ctx_err woken a =
      let (result, d) = update_session_status v cfg.run_id cfg.session_id ongoing a.db in
      elim result [
        | err e ↦ fail ctx_err (store_failure e) (record a { db = d })
        | ok _ ↦ (again true, record a { db = d })
      ]

  -- `tryCompact` (compact.go): the judge's verdict and the summary come from the system models,
  -- `none` where a model is not configured, its call fails or the summary does.
  unfoldable pub try_compact : Bool → Option String → ℕ → Store → Bool × Store
  try_compact exceeded summary call_step d =
      if ltb (call_step - 1) 1 || not exceeded then (false, d) else elim summary [
        | none ↦ (false, d)
        | some text ↦
            let (result, d') = compact_context v cfg.run_id cfg.session_id (call_step - 1) text d in
            elim result [ err e ↦ (false, d') | ok n ↦ (true, d') ]
      ]

  -- A failed LLM call: compact and make the call again at the same step, or fail. The number is
  -- `consecutiveCompactions`.
  unfoldable pub failed_call :
      Bool → Bool → Option String → Steps → String → ℕ → Agent → (Next × Agent) × ℕ
  unfolding try_compact
  failed_call ctx_err exceeded summary st text compactions a =
      let give_up = fail ctx_err (llm_failed text) a in
      let (compacted, d) = try_compact exceeded summary st.call_step a.db in
      if not ctx_err && ltb compactions max_consecutive_compactions
      then (
        if compacted then (again false, record a { db = d }) else give_up,
        if compacted then compactions + 1 else compactions,
      )
      else (give_up, compactions)
