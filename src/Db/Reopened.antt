-- ===== src/Db/Reopened.antt =====
-- Status writes and terminations: `UpdateSessionStatus` of internal/db/sqlite/sqlite.go against
-- `TerminateAndNotifyParent`.
use mathlib.Core.Option
use amplio.Common.{◌+◌, String, false, ◌≡◌, ◌≢◌, refl, ap, ◌∙◌, inr, some}
use amplio.Event.{Status}
use amplio.Db.Types.{SessionRecord, is_terminal}
use amplio.Db.State.{Store, fire}
use amplio.Db.Rows.{find_session, update_session}
use amplio.Db.Keys.{find-update_self, find-update_ne}
use amplio.Db.Frame.{sessions-emit, events-emit, status-KeepsKey}
use amplio.Db.Sessions.{update_session_status}
use amplio.Db.Calls.{healthy}
use amplio.Db.ExactlyOnce.{Attempt, attempt, results, attempt-results}

module _ (r s : String) (status : Status) (d : Store) where
  abbrev pub rewritten : Store
  rewritten = (update_session_status healthy r s status d).1

  found-rewritten :
      {x : SessionRecord}
      → find_session r s d ≡ some x
      → find_session r s rewritten
        ≡ some (record x { status = status; status_changed_at = d.clock })
  unfolding find_session update_session_status update_session fire
  found-rewritten found =
      rw sessions-emit
        (find-update_self (status-KeepsKey status d.clock) r s d.sessions ∙ ap (Option.map _) found)

  other-rewritten :
      {p : SessionRecord} (other : String)
      → s ≢ other
      → find_session r other d ≡ some p
      → find_session r other rewritten ≡ some p
  unfolding find_session update_session_status update_session fire
  other-rewritten other ne found =
      rw sessions-emit
        (find-update_ne (status-KeepsKey status d.clock) r s r other d.sessions (inr ne) ∙ found)

  events-rewritten : rewritten.events ≡ d.events
  unfolding update_session_status update_session fire
  events-rewritten = rw events-emit refl

-- A status write is not held back by a terminal status: after it, on a store that does not fail, a
-- session whose new status is not terminal is terminated once more, and its existing, distinct
-- parent gets another result of it.
pub status_write_reopens :
    (r s parent : String) (status : Status) (a : Attempt) (d : Store) {x p : SessionRecord}
    → find_session r s d ≡ some x
    → is_terminal status ≡ false
    → s ≢ parent
    → find_session r parent d ≡ some p
    → parent ≢ ""
    → results r parent s
        (attempt r s parent a (update_session_status healthy r s status d).1).events
      ≡ results r parent s d.events + 1
status_write_reopens r s parent status a d found live apart known named =
    attempt-results r s parent a (rewritten r s status d) (found-rewritten r s status d found) live
      apart (other-rewritten r s status d parent apart known) named
    ∙ ap (λ xs. results r parent s xs + 1) (events-rewritten r s status d)
