-- ===== src/Db/Calls.antt =====
-- The writes of the store as data: sequences of calls stand for the histories of a database.
use amplio.Common.{ℕ, String, List, [], ◌∷◌, Option, none, some, false}
use amplio.Event.{Event, Status}
use amplio.Db.Types.{SessionRecord}
use amplio.Db.State.{Store, Driver, Error, Result, ok, err}
use amplio.Db.Sessions.{
  create_session, update_session_status, advance_step, mark_step_finalized,
  set_last_summarized_step, set_last_phased_step,
}
use amplio.Db.Events.{append_event, append_event_at_step, finalize_step}
use amplio.Db.Compact.{compact_context}
use amplio.Db.Terminate.{terminate}

pub data Call : Type 0 where
  create : SessionRecord → Call
  set_status : String → String → Status → Call
  advance : String → String → Call
  mark_finalized : String → String → ℕ → Call
  summarized : String → String → ℕ → Call
  phased : String → String → ℕ → Call
  append : String → String → Event → Call
  append_at : String → String → ℕ → Event → Call
  finalize : String → String → ℕ → List Event → Call
  compact : String → String → ℕ → String → Call
  settle : String → String → String → Status → String → Option Event → Option ℕ → Call

abbrev pub failure {ℓ} : {A : Type ℓ} → Result A → Option Error
failure (ok a) = none
failure (err e) = some e

abbrev pub outcome : {A : Type 0} → Result A × Store → Option Error × Store
outcome (result, d) = (failure result, d)

-- A call, its error if it fails, and the store that it leaves.
unfoldable pub run_call : Driver → Call → Store → Option Error × Store
run_call v (create s) d = outcome (create_session v s d)
run_call v (set_status r s status) d = outcome (update_session_status v r s status d)
run_call v (advance r s) d = outcome (advance_step v r s d)
run_call v (mark_finalized r s n) d = outcome (mark_step_finalized v r s n d)
run_call v (summarized r s n) d = outcome (set_last_summarized_step v r s n d)
run_call v (phased r s n) d = outcome (set_last_phased_step v r s n d)
run_call v (append r s e) d = outcome (append_event v r s e d)
run_call v (append_at r s n e) d = outcome (append_event_at_step v r s n e d)
run_call v (finalize r s n es) d = outcome (finalize_step v r s n es d)
run_call v (compact r s n text) d = outcome (compact_context v r s n text d)
run_call v (settle r s parent status content self step) d =
    outcome (terminate r s v parent status content self step d)

unfoldable pub run_calls : Driver → List Call → Store → Store
run_calls v [] d = d
run_calls v (c ∷ cs) d = run_calls v cs (run_call v c d).1

-- A driver that refuses nothing.
abbrev pub healthy : Driver
healthy r s d = false
