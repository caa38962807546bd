-- ===== src/Examples/Store.antt =====
-- The theorems on the store and the waiter at concrete inputs.
use amplio.Common.{◌≡◌, ◌≢◌, refl, arith, [], ◌∷◌, some, none, true, eq_iff, ◌+◌}
use amplio.Event.{Status, concluded, cancelled, idle, user}
use amplio.Db.Types.{SessionRecord, EventFilter, is_terminal}
use amplio.Db.Rows.{find_session, find_row, is_session}
use amplio.Db.Calls.{append, set_status, run_calls, healthy}
use amplio.Db.Sessions.{advance_step}
use amplio.Db.Events.{get_events}
use amplio.Db.Order.{order_rows}
use amplio.Db.State.{ok}
use amplio.Db.ExactlyOnce.{Attempt, attempt_all, results, child_result_once}
use amplio.Common.{◌++◌, ltb, filter}
use amplio.Event.{compaction}
use amplio.Db.Calls.{compact}
use amplio.Db.Types.{current_context}
use amplio.Db.Frame.{new_event}
use amplio.Db.Compact.{compact_context}
use amplio.Db.Sessions.{update_session_status}
use amplio.Db.ExactlyOnce.{attempt}
use amplio.Db.Reach.{IsReached, Reached}
use amplio.Db.Generations.{run_calls-IsReached}
use amplio.Db.Compacted.{carried_rows, compacted_context}
use amplio.Db.Reopened.{status_write_reopens}
use amplio.Db.State.{Store}
use amplio.Db.Frozen.{window_frozen}
use amplio.Session.Waiter.{
  Waiter, woke, timed_out, wait_after, notify_times, snapshot, no_lost_wakeup,
}
use amplio.Examples.Data.{db, boss, kid}

abbrev attempt_of : (status : Status) → is_terminal status ≡ true → Attempt
attempt_of status final = record {
  status = status;
  content = "bye";
  self = none;
  step = none;
  final = final;
}

child_result_once_example :
    (results "run" "boss" "kid"
        (attempt_all "run" "kid" "boss"
          (attempt_of concluded (unfold is_terminal in refl)
            ∷ attempt_of cancelled (unfold is_terminal in refl)
            ∷ [])
          db).events
      ≡ results "run" "boss" "kid" db.events + 1)
    × ((x' : SessionRecord) × (find_session "run" "kid" (
            attempt_all "run" "kid" "boss"
              (attempt_of concluded (unfold is_terminal in refl)
                ∷ attempt_of cancelled (unfold is_terminal in refl)
                ∷ [])
              db)
          ≡ some x')
        × (x'.status ≡ concluded))
unfolding is_terminal find_session find_row is_session
child_result_once_example =
    child_result_once "run" "kid" "boss" (attempt_of concluded (unfold is_terminal in refl))
      (attempt_of cancelled (unfold is_terminal in refl) ∷ []) db {x = kid} {p = boss} refl refl
      (λ e. ground (arith, eq_iff "kid" "boss")) refl (λ e. ground (arith, eq_iff "boss" ""))

abbrev turn_window : EventFilter
turn_window = record { current_context_only = true; start_step = none; end_step = some 2 }

window_frozen_example :
    (get_events healthy "run" "kid" turn_window (
      run_calls healthy
        (append "run" "kid" (user "late") ∷ set_status "run" "kid" idle ∷ [])
        (advance_step healthy "run" "kid" db).1)).0
    ≡ (get_events healthy "run" "kid" turn_window (advance_step healthy "run" "kid" db).1).0
unfolding advance_step find_session find_row is_session
window_frozen_example =
    window_frozen healthy "run" "kid" db 3 turn_window
      (append "run" "kid" (user "late") ∷ set_status "run" "kid" idle ∷ []) refl refl (tt, (tt, tt))

abbrev waiter : Waiter
waiter = record { counter = 7 }

no_lost_wakeup_example :
    (wait_after (notify_times 2 waiter) (snapshot waiter) (timed_out 0 ∷ [])
      ≡ (some (woke (notify_times 2 waiter).counter), notify_times 2 waiter))
    × ((notify_times 2 waiter).counter ≢ snapshot waiter)
no_lost_wakeup_example =
    no_lost_wakeup waiter 2 (timed_out 0 ∷ []) (omega arith) (omega arith) (omega arith)

db-IsReached : IsReached db
unfolding IsReached Reached find_row is_session
db-IsReached = (
  (kid, refl, omega arith),
  ((kid, refl, omega arith), ((kid, refl, omega arith), ((boss, refl, omega arith), tt))),
)

run_calls-IsReached_example :
    IsReached (
      run_calls healthy (compact "run" "kid" 1 "so far" ∷ append "run" "kid" (user "next") ∷ []) db)
run_calls-IsReached_example =
    run_calls-IsReached healthy
      (compact "run" "kid" 1 "so far" ∷ append "run" "kid" (user "next") ∷ []) db db-IsReached

compacted_context_example :
    (get_events healthy "run" "kid" current_context
      (compact_context healthy "run" "kid" 1 "so far" db).1).0
    ≡ ok (
        order_rows (filter (λ e. ltb e.step 1) (carried_rows "run" "kid" 0 1 db))
        ++ new_event "run" "kid" 1 1 (compaction "so far") db
          ∷ order_rows (filter (λ e. ltb 1 e.step) (carried_rows "run" "kid" 0 1 db)))
unfolding find_session find_row is_session compact_context
compacted_context_example =
    compacted_context healthy "run" "kid" 1 "so far" db {x = kid} 1 db-IsReached refl refl

abbrev concluded_db : Store
concluded_db = record db { sessions = boss ∷ record kid { status = concluded } ∷ [] }

status_write_reopens_example :
    results "run" "boss" "kid"
      (attempt "run" "kid" "boss"
        (attempt_of concluded (unfold is_terminal in refl))
        (update_session_status healthy "run" "kid" idle concluded_db).1).events
    ≡ results "run" "boss" "kid" concluded_db.events + 1
unfolding is_terminal find_session find_row is_session
status_write_reopens_example =
    status_write_reopens "run" "kid" "boss" idle (attempt_of concluded (unfold is_terminal in refl))
      concluded_db {x = record kid { status = concluded }} {p = boss} refl refl
      (λ e. ground (arith, eq_iff "kid" "boss")) refl (λ e. ground (arith, eq_iff "boss" ""))
