-- ===== src/Db/Atomic.antt =====
-- The failures of the writes of internal/db/sqlite/sqlite.go.
use amplio.Common.{◌≡◌, some, arith}
use amplio.Db.State.{Store, Driver, Error}
use amplio.Db.Calls.{Call, create, run_call}
use amplio.Db.Sessions.{
  create_session, update_session_status, advance_step, mark_step_finalized,
  set_last_summarized_step, set_last_phased_step,
}
use amplio.Db.Events.{append_event, append_event_at_step, finalize_step}
use amplio.Db.Compact.{compact_context}
use amplio.Db.Terminate.{terminate, notify_parent}

-- A write of the store that returns an error leaves the store exactly as it was: rows, channel
-- and listener calls.
pub failed_call_unchanged :
    (v : Driver) (c : Call) (d : Store) {e : Error}
    → (run_call v c d).0 ≡ some e
    → (run_call v c d).1 ≡ d
unfolding run_call create_session update_session_status advance_step mark_step_finalized
    set_last_summarized_step set_last_phased_step append_event append_event_at_step finalize_step
    compact_context terminate notify_parent
failed_call_unchanged v (create s) d h = ground arith
failed_call_unchanged v c d h = ground arith
