-- ===== src/Db/Terminate.antt =====
-- `TerminateAndNotifyParent` of internal/db/sqlite/sqlite.go.
use amplio.Common.{ℕ, String, Option, none, some, str_eq, if◌then◌else◌}
use amplio.Event.{Event, Status, child_result}
use amplio.Db.Types.{SessionRecord, is_terminal}
use amplio.Db.State.{
  Store, Driver, Result, Op, ok, err, driver_fault, no_rows, emit, fire, insert_event,
  event_appended, session_status_changed, commit, status_changed,
}
use amplio.Db.Rows.{find_session, update_session}

abbrev pub step_or : Option ℕ → ℕ → ℕ
step_or none current = current
step_or (some step) current = step

module _ (r s : String) where
  -- The self-marker, at the given step or the session's current one (`-1` in the source).
  unfoldable pub insert_self : Option Event → Option ℕ → SessionRecord → Store → Store
  insert_self none step x d = d
  insert_self (some e) step x d =
      insert_event r s (step_or step x.current_step) x.current_generation e d

  -- The conditional UPDATE on a row that is not terminal.
  unfoldable pub settle : Status → Store → Store
  settle status d =
      update_session r s (λ x. record x { status = status; status_changed_at = d.clock }) d

  -- What follows the commit: the channel, then the status hook, then the parent's wake.
  unfoldable pub announce : Status → Store → Store
  announce status d = fire (status_changed r s status) (emit (session_status_changed r s status) d)

  unfoldable pub announce_to_parent : String → Status → Event → ℕ → Store → Store
  announce_to_parent parent status e step d = fire (commit r parent e step) (
      fire (status_changed r s status)
        (emit (event_appended r parent) (emit (session_status_changed r s status) d)))

  -- The child result at the parent's current step. With no parent row the transaction is undone.
  unfoldable pub notify_parent :
      String → Status → String → Option SessionRecord → Store → Store → Result (Unit {0}) × Store
  notify_parent parent status content none before d = (err no_rows, before)
  notify_parent parent status content (some p) before d =
      let e = child_result content s status in
      (
        ok tt,
        announce_to_parent parent status e p.current_step
            (insert_event r parent p.current_step p.current_generation e d),
      )

  -- The first terminator wins: a terminal or missing session is left alone.
  unfoldable pub terminate :
      Driver → String → Status → String → Option Event → Option ℕ → Op (Unit {0})
  unfolding insert_self settle announce notify_parent announce_to_parent
  terminate driver parent status content self self_step d =
      if driver r s d then (err driver_fault, d) else elim (find_session r s d) [
        | none ↦ (ok tt, d)
        | some x ↦
            if is_terminal x.status
            then (ok tt, d)
            else let settled = insert_self self self_step x (settle status d) in
              if str_eq parent ""
              then (ok tt, announce status settled)
              else notify_parent parent status content (find_session r parent settled) d settled
      ]
