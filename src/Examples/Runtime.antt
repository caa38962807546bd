-- ===== src/Examples/Runtime.antt =====
-- The theorems on the runtime and the cancel at concrete inputs.
use mathlib.Core.Option
use amplio.Common.{◌≡◌, ◌≤◌, refl, arith, none, false, any}
use amplio.Event.{user}
use amplio.Db.Calls.{healthy}
use amplio.Db.Types.{is_terminal}
use amplio.Session.Waiter.{notify}
use amplio.Common.{true, some, All}
use amplio.Event.{cancelled, system, marker_cancelled}
use amplio.Db.Types.{SessionRecord}
use amplio.Db.State.{emit, fire, insert_event}
use amplio.Db.Rows.{find_session, find_row, is_session, update_session, update_rows}
use amplio.Db.Sessions.{get_session, get_child_sessions, order_sessions, insert_session}
use amplio.Db.Terminate.{
  terminate, settle, insert_self, announce, notify_parent, announce_to_parent,
}
use amplio.Session.Cancel.{listed, write_cancel, cascade, cancel_each}
use amplio.Session.Ended.{IsEnded, cancel_covers_children}
use amplio.Examples.Data.{boss}
use amplio.Session.Registry.{slot_of, is_registered, is_empty, new_registry}
use amplio.Runtime.Orphaned.{late_claim, late_claim_lost}
use amplio.Session.Cancel.{cancel_session}
use amplio.Session.Live.{live}
use amplio.Session.Cascade.{is_out_of_fuel, cancel_ends}
use amplio.Runtime.Runs.{get_run, instance_at, get_or_create}
use amplio.Runtime.Manager.{World, on_commit}
use amplio.Runtime.Wake.{is_live, waiter_of, live_commit}
use amplio.Runtime.Launches.{IsValid}
use amplio.Examples.Data.{db, world, idle_manager, busy_manager}

cancel_ends_example :
    (any is_out_of_fuel (cancel_session healthy 3 "run" "boss" "stop" none db).errors ≡ false)
    × (live (cancel_session healthy 3 "run" "boss" "stop" none db).db.sessions ≤ live db.sessions)
unfolding live is_terminal
cancel_ends_example = cancel_ends healthy 3 "run" "boss" "stop" none db (omega arith)

live_commit_example :
    (waiter_of "run" "kid" (on_commit world "run" "kid" (user "hello") busy_manager)
      ≡ Option.map notify (waiter_of "run" "kid" busy_manager))
    × ((on_commit world "run" "kid" (user "hello") busy_manager).launched ≡ busy_manager.launched)
    × ((on_commit world "run" "kid" (user "hello") busy_manager).db ≡ db)
unfolding is_live get_run slot_of is_registered instance_at
live_commit_example = live_commit world "run" "kid" (user "hello") busy_manager refl refl

idle_manager-IsValid : IsValid idle_manager.runs
unfolding IsValid get_run slot_of
idle_manager-IsValid run n h = absurd (cc h)

-- A world in which nothing can be launched.
abbrev later : World
later = record world { launchable = λ x. false }

late_claim_lost_example :
    (is_registered "kid" (instance_at 0 (late_claim "run" "kid" idle_manager.runs).instances)
      ≡ true)
    × (is_live "run" "kid" (record idle_manager { runs = late_claim "run" "kid" idle_manager.runs })
        ≡ false)
unfolding get_or_create get_run slot_of instance_at is_empty new_registry
late_claim_lost_example = late_claim_lost "run" "kid" idle_manager idle_manager-IsValid refl

cancel_covers_children_example :
    IsEnded "run" "boss" (cancel_session healthy 3 "run" "boss" "stop" none db).db
    × All
        (λ (y : SessionRecord).
          IsEnded "run" y.session_id (cancel_session healthy 3 "run" "boss" "stop" none db).db)
        (listed "boss"
          (get_child_sessions healthy "run" "boss"
            (terminate "run" "boss" healthy "" cancelled "stop"
              (some (system "stop" marker_cancelled))
              none
              db).1).0).0
unfolding get_session find_session find_row is_session is_terminal cancel_session write_cancel
    cascade cancel_each get_child_sessions order_sessions insert_session terminate settle
    insert_self announce notify_parent announce_to_parent insert_event emit fire update_session
    update_rows
cancel_covers_children_example =
    cancel_covers_children healthy 2 "run" "boss" "stop" none db {x = boss} refl refl refl
