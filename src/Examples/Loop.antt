-- ===== src/Examples/Loop.antt =====
-- The theorems on the loop at concrete inputs.
use amplio.Common.{
  ◌≤◌, ◌+◌, ◌≡◌, ◌≢◌, ◌||◌, not, refl, arith, [], ◌∷◌, List, none, some, true, false,
}
use amplio.Event.{Assistant}
use amplio.Db.Types.{EventRecord, current_context, is_terminal}
use amplio.Db.State.{Store, ok}
use amplio.Db.Rows.{find_session, find_row, is_session, is_event_of, update_session, update_rows}
use amplio.Db.Order.{order_rows}
use amplio.Db.Calls.{healthy}
use amplio.Db.Sessions.{advance_step, get_child_sessions, order_sessions}
use amplio.Db.Events.{matching, filter_clause, in_generation, get_events, get_event_count}
use amplio.Db.Terminate.{terminate, notify_parent}
use amplio.Session.Cancel.{cancel_each}
use amplio.Loop.Text.{is_degenerate_turn, is_output_limit_stop_reason}
use amplio.Loop.Agent.{conclude, cascade_cancel_children}
use amplio.Loop.Turn.{again, Steps, determine_step, settle_turn, settle_autonomous, settle_answer}
use amplio.Loop.Orphans.{repair_orphan_tool_calls, has_result}
use amplio.Loop.Called.{declared}
use amplio.Loop.Repair.{calls_have_results, repaired_once}
use mathlib.Core.List.{Perm}
use amplio.Common.{◌++◌, String}
use amplio.Loop.Messages.{
  Message, role_assistant, role_tool_result, order_tool_results, sort_ranked, take_results,
  drop_results, order_fuel, order_run, insert_ranked, rank,
}
use amplio.Loop.Results.{IsAscending, order_tool_results-Perm, turn_ordered}
use amplio.Db.Events.{in_generation, filter_clause}
use amplio.Loop.Resume.{resume_autonomous, run_resumed}
use amplio.Loop.Verdict.{at_step, Agrees, recovery_settles_as_live, conclusion_is_deliberate}
use amplio.Loop.Compactions.{FailedCall, failed_calls, failed_calls_end}
use amplio.Loop.Turn.{call_filter, finish_tool_turn}
use amplio.Loop.Answered.{finish_tool_turn-has_result}
use amplio.Examples.Data.{result_of}
use amplio.Loop.Budget.{is_quiet, quiet_turns, bare_turns, bare_turns_end}
use amplio.Loop.Steps.{stepped, step_made_again}
use amplio.Examples.Data.{db, kid, two_calls, reply, render, kid_config, kid_agent}

-- What a read of the kid's context returns.
abbrev context_of : Store → List EventRecord
context_of d = order_rows (matching "run" "kid" current_context d)

calls_have_results_example :
    ((repair_orphan_tool_calls healthy "run" "kid" (context_of db) db).0 ≡ ok tt)
    × ((not (
            declared "c2"
              (context_of (repair_orphan_tool_calls healthy "run" "kid" (context_of db) db).1))
          || has_result "c2"
              (context_of (repair_orphan_tool_calls healthy "run" "kid" (context_of db) db).1))
        ≡ true)
unfolding find_session find_row is_session get_events
calls_have_results_example =
    calls_have_results "run" "kid" db {x = kid} (context_of db)
      (context_of (repair_orphan_tool_calls healthy "run" "kid" (context_of db) db).1) refl refl
      refl "c2"

recovery_settles_as_live_example :
    Agrees healthy render kid_config
      (run_resumed healthy render kid_config false (
        resume_autonomous healthy render kid_config
          (reply "42")
          (at_step healthy render kid_config none kid_agent)))
      (settle_autonomous healthy render kid_config false
        (reply "42")
        (at_step healthy render kid_config (some 1) kid_agent))
recovery_settles_as_live_example =
    recovery_settles_as_live healthy render kid_config (reply "42") (some 1) kid_agent

abbrev kid_steps : Steps
kid_steps = record { call_step = 1; new_step = 2 }

conclusion_is_deliberate_example :
    ((get_event_count healthy "run" "kid"
        (record { current_context_only = false; start_step = some 2; end_step = none })
        db).0
      ≡ ok 0)
    × ((reply "42").refusal ≡ none)
    × (is_output_limit_stop_reason "stop" ≡ false)
    × (is_degenerate_turn "42" ≡ false)
unfolding settle_turn settle_autonomous settle_answer get_event_count matching find_session find_row
    is_session is_event_of filter_clause in_generation conclude cascade_cancel_children
    get_child_sessions order_sessions cancel_each terminate notify_parent is_terminal
    is_output_limit_stop_reason is_degenerate_turn update_session update_rows
conclusion_is_deliberate_example =
    conclusion_is_deliberate healthy render kid_config kid_steps (reply "42") kid_agent refl refl

abbrev empty_turn : Store × Steps × Assistant
empty_turn = (db, record { call_step = 8; new_step = 9 }, reply "")

abbrev five_empty : List (Store × Steps × Assistant)
five_empty = empty_turn ∷ empty_turn ∷ empty_turn ∷ empty_turn ∷ empty_turn ∷ []

five_quiet : 5 ≤ quiet_turns healthy render kid_config false five_empty
unfolding is_quiet get_event_count matching find_session find_row is_session is_event_of
    filter_clause in_generation
five_quiet = omega arith

bare_turns_end_example :
    (bare_turns healthy render kid_config false five_empty kid_agent).0 ≢ again true
bare_turns_end_example =
    bare_turns_end healthy render kid_config false refl five_empty kid_agent
      (record { conclude = omega arith; output = omega arith }) (omega (arith, five_quiet)) true

step_made_again_example :
    determine_step healthy render kid_config false (stepped render kid_config db).1
    ≡ (ok (record { call_step = 2; new_step = 3 }), (stepped render kid_config db).1)
unfolding determine_step advance_step find_session find_row is_session
step_made_again_example =
    step_made_again render kid_config db (record { call_step = 2; new_step = 3 }) refl

repaired_once_example :
    repair_orphan_tool_calls healthy "run" "kid"
      (context_of (repair_orphan_tool_calls healthy "run" "kid" (context_of db) db).1)
      (repair_orphan_tool_calls healthy "run" "kid" (context_of db) db).1
    ≡ (ok tt, (repair_orphan_tool_calls healthy "run" "kid" (context_of db) db).1)
unfolding find_session find_row is_session get_events
repaired_once_example =
    repaired_once "run" "kid" db {x = kid} (context_of db)
      (context_of (repair_orphan_tool_calls healthy "run" "kid" (context_of db) db).1) refl refl
      refl

abbrev call_message : Message
call_message = record {
  role = role_assistant;
  content = "";
  tool_calls = two_calls.tool_calls;
  provider_extra = "";
  tool_call_id = "";
  attachments = [];
}

abbrev result_message : String → Message
result_message id = record {
  role = role_tool_result;
  content = "done";
  tool_calls = [];
  provider_extra = "";
  tool_call_id = id;
  attachments = [];
}

-- The second call has finished first.
abbrev late_first : List Message
late_first = result_message "c2" ∷ result_message "c1" ∷ []

order_tool_results-Perm_example :
    Perm (order_tool_results (call_message ∷ late_first)) (call_message ∷ late_first)
order_tool_results-Perm_example = order_tool_results-Perm (call_message ∷ late_first)

turn_ordered_example :
    (order_tool_results (call_message ∷ late_first)
      ≡ call_message
        ∷ (sort_ranked two_calls.tool_calls (take_results late_first)
            ++ order_tool_results (drop_results late_first)))
    × IsAscending two_calls.tool_calls (sort_ranked two_calls.tool_calls (take_results late_first))
turn_ordered_example = turn_ordered call_message late_first refl

first_call_first :
    order_tool_results (call_message ∷ late_first)
    ≡ call_message ∷ result_message "c1" ∷ result_message "c2" ∷ []
unfolding order_tool_results order_fuel order_run sort_ranked insert_ranked take_results
    drop_results rank
first_call_first = refl

abbrev overflow : FailedCall
overflow = record {
  met = db;
  steps = kid_steps;
  exceeded = true;
  summary = some "so far";
  text = "context too long";
}

failed_calls_end_example :
    (failed_calls healthy render kid_config false
      (overflow ∷ overflow ∷ overflow ∷ overflow ∷ [])
      0
      kid_agent).0
    ≢ again false
failed_calls_end_example =
    failed_calls_end healthy render kid_config false
      (overflow ∷ overflow ∷ overflow ∷ overflow ∷ []) 0 kid_agent (omega arith) (omega arith) false

abbrev both_answered : Store
both_answered =
    (finish_tool_turn healthy render kid_config false kid_steps two_calls
      (result_of "c2" ∷ result_of "c1" ∷ []) kid_agent).1.db

finish_tool_turn-has_result_example :
    ((finish_tool_turn healthy render kid_config false kid_steps two_calls
        (result_of "c2" ∷ result_of "c1" ∷ [])
        kid_agent).0
      ≡ again true)
    × ((advance_step healthy "run" "kid" both_answered).0 ≡ ok (kid.current_step + 1))
    × ((rows : List EventRecord) × ((get_events healthy "run" "kid"
            (call_filter healthy render kid_config kid.current_step)
            (advance_step healthy "run" "kid" both_answered).1).0
          ≡ ok rows)
        × (has_result "c1" rows ≡ true))
unfolding find_session find_row is_session
finish_tool_turn-has_result_example =
    finish_tool_turn-has_result render kid_config false kid_steps two_calls
      (result_of "c2" ∷ result_of "c1" ∷ []) kid_agent {x = kid} "c1" refl (omega arith) refl
