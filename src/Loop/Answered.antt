-- ===== src/Loop/Answered.antt =====
-- A live turn with tool calls: `executeAndAppendToolResults` of
-- internal/agent/eventloop/eventloop.go and what stands around it in the loop.
use amplio.Common.{
  ℕ, ◌+◌, ◌≤◌, ◌&&◌, ◌≡◌, refl, ap, ◌∙◌, String, Bool, true, ◌||◌, List, [], ◌∷◌, none, some, arith,
  any, max, str_eq,
}
use amplio.Event.{Event, ToolResult, Assistant, assistant, tool_result}
use amplio.Db.Types.{SessionRecord, EventRecord}
use amplio.Db.State.{Store, ok, fire}
use amplio.Db.Rows.{find_session, update_session, is_event_of}
use amplio.Db.Keys.{find-update_self}
use amplio.Db.Calls.{healthy}
use amplio.Db.Sessions.{advance_step, mark_step_finalized}
use amplio.Db.Events.{get_events, append_event_at_step, matching, filter_clause, in_generation}
use amplio.Loop.Agent.{Config, Failure, Agent}
use amplio.Loop.Turn.{call_filter, again, Steps, append_tool_results, finish_tool_turn}
use amplio.Loop.Orphans.{is_result_for, has_result}
use amplio.Loop.Called.{any-order_rows, any-filter-snoc}
use amplio.Loop.Repair.{append-found, append-ok, append-events}
use amplio.Db.Order.{order_rows}
use amplio.Db.Frame.{sessions-emit, events-emit, new_event, is_event_of_self}

module _ (render : Failure → String) (cfg : Config) where
  -- The rows that a turn reads, up to its call step.
  abbrev here : ℕ → Store → List EventRecord
  here hi d = matching cfg.run_id cfg.session_id (call_filter healthy render cfg hi) d

  new_event-read :
      (hi n : ℕ) (e : Event) (d : Store) (x : SessionRecord)
      → n ≤ hi
      → (is_event_of cfg.run_id cfg.session_id
            (new_event cfg.run_id cfg.session_id n x.current_generation e d)
          && filter_clause
              (some x)
              (call_filter healthy render cfg hi)
              (new_event cfg.run_id cfg.session_id n x.current_generation e d))
        ≡ true
  unfolding filter_clause in_generation
  new_event-read hi n e d x le =
      ground (arith, le, is_event_of_self cfg.run_id cfg.session_id n x.current_generation e d)

  -- A test of some row that is read, after an append at a step up to the call step.
  any-read :
      (hi : ℕ) (q : EventRecord → Bool) (n : ℕ) (e : Event) (d : Store) {x : SessionRecord}
      → n ≤ hi
      → find_session cfg.run_id cfg.session_id d ≡ some x
      → any q (here hi (append_event_at_step healthy cfg.run_id cfg.session_id n e d).1)
        ≡ (any q (here hi d) || q (new_event cfg.run_id cfg.session_id n x.current_generation e d))
  unfolding matching
  any-read hi q n e d {x = x} le found =
      rw
        (
          append-found cfg.run_id cfg.session_id n e d,
          append-events cfg.run_id cfg.session_id n e d found,
          found,
        )
        (any-filter-snoc q
          (λ y.
            is_event_of cfg.run_id cfg.session_id y
            && filter_clause (some x) (call_filter healthy render cfg hi) y)
          d.events (new_event cfg.run_id cfg.session_id n x.current_generation e d)
          (new_event-read hi n e d x le))

  abbrev pub answers : String → List ToolResult → Bool
  answers id ts = any (λ (t : ToolResult). str_eq t.tool_call_id id) ts

  results-cons :
      (step : ℕ) (t : ToolResult) (ts : List ToolResult) (d : Store) {x : SessionRecord}
      → find_session cfg.run_id cfg.session_id d ≡ some x
      → append_tool_results healthy render cfg step (t ∷ ts) d
        ≡ append_tool_results healthy render cfg step ts
            (append_event_at_step healthy cfg.run_id cfg.session_id step (tool_result t) d).1
  unfolding append_tool_results
  results-cons step t ts d found =
      rw (append_tool_results, append-ok cfg.run_id cfg.session_id step (tool_result t) d found)
        refl

  results-kept :
      (step : ℕ) (ts : List ToolResult) (d : Store) {x : SessionRecord}
      → find_session cfg.run_id cfg.session_id d ≡ some x
      → ((append_tool_results healthy render cfg step ts d).0 ≡ none)
        × (find_session cfg.run_id cfg.session_id
              (append_tool_results healthy render cfg step ts d).1
            ≡ some x)
  unfolding append_tool_results
  results-kept step [] d found = (refl, found)
  results-kept step (t ∷ ts) d found = rw (results-cons step t ts d found) (
      results-kept step ts _
        (append-found cfg.run_id cfg.session_id step (tool_result t) d ∙ found))

  has_result-append_tool_results :
      (hi : ℕ) (id : String) (step : ℕ) (ts : List ToolResult) (d : Store) {x : SessionRecord}
      → step ≤ hi
      → find_session cfg.run_id cfg.session_id d ≡ some x
      → has_result id (here hi (append_tool_results healthy render cfg step ts d).1)
        ≡ (has_result id (here hi d) || answers id ts)
  unfolding append_tool_results has_result is_result_for
  has_result-append_tool_results hi id step [] d le found = ground arith
  has_result-append_tool_results hi id step (t ∷ ts) d {x = x} le found =
      let d' = (append_event_at_step healthy cfg.run_id cfg.session_id step (tool_result t) d).1 in
      let later =
        has_result-append_tool_results hi id step ts d' le
          (append-found cfg.run_id cfg.session_id step (tool_result t) d ∙ found) in
      let one = any-read hi (λ y. is_result_for id y.event) step (tool_result t) d le found in
      rw (results-cons step t ts d found) (ground (arith, later, one))

  here-marked :
      (hi step : ℕ) (d : Store) {x : SessionRecord}
      → find_session cfg.run_id cfg.session_id d ≡ some x
      → (here hi (mark_step_finalized healthy cfg.run_id cfg.session_id step d).1 ≡ here hi d)
        × (find_session cfg.run_id cfg.session_id
              (mark_step_finalized healthy cfg.run_id cfg.session_id step d).1
            ≡ some (record x { last_finalized_step = max x.last_finalized_step step }))
  unfolding mark_step_finalized matching filter_clause in_generation find_session update_session
      fire
  here-marked hi step d found =
      rw
        (
          find-update_self
              {f = λ y. record y { last_finalized_step = max y.last_finalized_step step }}
              (record { run = λ y. refl; session = λ y. refl }) cfg.run_id cfg.session_id
              d.sessions,
          found,
        )
        (refl, refl)

  -- The bump of the next turn, and what it then reads.
  here-advanced :
      (hi : ℕ) (d : Store) {x : SessionRecord}
      → find_session cfg.run_id cfg.session_id d ≡ some x
      → ((advance_step healthy cfg.run_id cfg.session_id d).0 ≡ ok (x.current_step + 1))
        × (here hi (advance_step healthy cfg.run_id cfg.session_id d).1 ≡ here hi d)
  unfolding advance_step matching filter_clause in_generation find_session update_session
  here-advanced hi d found =
      rw
        (
          advance_step,
          found,
          sessions-emit,
          events-emit,
          find-update_self {f = λ y. record y { current_step = y.current_step + 1 }}
              (record { run = λ y. refl; session = λ y. refl }) cfg.run_id cfg.session_id
              d.sessions,
          found,
        )
        (refl, refl)

  abbrev wrote : Steps → Assistant → Agent → Store
  wrote st resp a =
      (append_event_at_step healthy cfg.run_id cfg.session_id st.call_step (assistant resp) a.db).1

  marked :
      (step : ℕ) (d : Store)
      → (mark_step_finalized healthy cfg.run_id cfg.session_id step d).0 ≡ ok tt
  unfolding mark_step_finalized
  marked step d = refl

  finished :
      (ctx_err : Bool) (st : Steps) (resp : Assistant) (ts : List ToolResult) (a : Agent)
      {x : SessionRecord}
      → find_session cfg.run_id cfg.session_id a.db ≡ some x
      → finish_tool_turn healthy render cfg ctx_err st resp ts a ≡ (
        again true,
        record a {
          db =
              (mark_step_finalized healthy cfg.run_id cfg.session_id st.call_step
                (append_tool_results healthy render cfg st.call_step ts (wrote st resp a)).1).1;
          conclude_nudges = 0;
          output_limit_nudges = 0;
        },
      )
  unfolding finish_tool_turn
  finished ctx_err st resp ts a found =
      let found1 =
        append-found cfg.run_id cfg.session_id st.call_step (assistant resp) a.db ∙ found in
      let kept = results-kept st.call_step ts (wrote st resp a) found1 in
      rw
        (
          finish_tool_turn,
          append-ok cfg.run_id cfg.session_id st.call_step (assistant resp) a.db found,
          kept.0,
          marked st.call_step
              (append_tool_results healthy render cfg st.call_step ts (wrote st resp a)).1,
        )
        refl

  or_true : (b : Bool) → (b || true) ≡ true
  or_true b = ground arith

  -- A live turn with tool calls, on a store that does not fail and that has the session, at a call
  -- step that the session has reached, goes on to the next turn. There the bump gives a call step,
  -- and in the context read up to it each id that some result answers has its result.
  pub finish_tool_turn-has_result :
      (ctx_err : Bool) (st : Steps) (resp : Assistant) (ts : List ToolResult) (a : Agent)
      {x : SessionRecord} (id : String)
      → find_session cfg.run_id cfg.session_id a.db ≡ some x
      → st.call_step ≤ x.current_step
      → answers id ts ≡ true
      → ((finish_tool_turn healthy render cfg ctx_err st resp ts a).0 ≡ again true)
        × ((advance_step healthy cfg.run_id cfg.session_id
              (finish_tool_turn healthy render cfg ctx_err st resp ts a).1.db).0
            ≡ ok (x.current_step + 1))
        × ((rows : List EventRecord) × ((get_events healthy cfg.run_id cfg.session_id
                (call_filter healthy render cfg x.current_step)
                (advance_step healthy cfg.run_id cfg.session_id
                  (finish_tool_turn healthy render cfg ctx_err st resp ts a).1.db).1).0
              ≡ ok rows)
            × (has_result id rows ≡ true))
  unfolding has_result is_result_for get_events
  finish_tool_turn-has_result ctx_err st resp ts a {x = x} id found reached answered =
      let hi = x.current_step in
      let d1 = wrote st resp a in
      let d2 = (append_tool_results healthy render cfg st.call_step ts d1).1 in
      let d3 = (mark_step_finalized healthy cfg.run_id cfg.session_id st.call_step d2).1 in
      let found1 =
        append-found cfg.run_id cfg.session_id st.call_step (assistant resp) a.db ∙ found in
      let kept = results-kept st.call_step ts d1 found1 in
      let mark = here-marked hi st.call_step d2 kept.1 in
      let bump = here-advanced hi d3 mark.1 in
      rw (finished ctx_err st resp ts a found) (
        refl,
        bump.0,
        (
          order_rows (here hi (advance_step healthy cfg.run_id cfg.session_id d3).1),
          refl,
          any-order_rows (λ y. is_result_for id y.event)
                (here hi (advance_step healthy cfg.run_id cfg.session_id d3).1)
              ∙ ap (λ l. has_result id l) (bump.1 ∙ mark.0)
              ∙ has_result-append_tool_results hi id st.call_step ts d1 reached found1
              ∙ ap (λ b. has_result id (here hi d1) || b) answered
              ∙ or_true (has_result id (here hi d1)),
        ),
      )
