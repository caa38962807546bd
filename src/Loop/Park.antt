-- ===== src/Loop/Park.antt =====
-- `hasPendingInput` and `waitForFollowUp` of internal/agent/eventloop/eventloop.go.
use amplio.Common.{
  ℕ, String, Bool, false, not, List, [], ◌∷◌, Option, none, some, ◌==◌, if◌then◌else◌, any,
}
use amplio.Db.Types.{EventRecord, is_input}
use amplio.Db.State.{Store, Driver, Result, ok, err}
use amplio.Db.Sessions.{get_session}
use amplio.Db.Events.{get_events}
use amplio.Session.Waiter.{Wake, woke, interrupted}

abbrev inputs_in : Result (List EventRecord) → Bool
inputs_in (err e) = false
inputs_in (ok rows) = any (λ x. is_input x.event) rows

-- `hasPendingInput`: an unreadable store has none.
unfoldable pub has_pending_input : Driver → String → String → Store → Bool
has_pending_input v r s d = elim (get_session v r s d).0 [
  | err e ↦ false
  | ok x ↦
      inputs_in
        (get_events v r s
          (record {
            current_context_only = false;
            start_step = some x.current_step;
            end_step = none;
          })
          d).0
]

-- One round of the wait: the waiter's counter before the check, the store that the check reads,
-- whether time remains after it, and how `WaitAfter` then returns.
pub record Round : Type 0 where
  pub before : ℕ
  pub seen : Store
  pub time_remains : Bool
  pub wake : Wake

pub data FollowUp : Type 0 where
  woken : FollowUp
  idle_timeout : FollowUp
  ctx_cancelled : FollowUp

-- `waitForFollowUp`, over the rounds that take place. `none`: it still waits.
unfoldable pub wait_for_follow_up : Driver → String → String → List Round → Option FollowUp
wait_for_follow_up v r s [] = none
wait_for_follow_up v r s (x ∷ xs) =
    let next = wait_for_follow_up v r s xs in
    let waited : Option FollowUp = elim x.wake [
      | interrupted c ↦ some ctx_cancelled
      | woke after ↦ if after == x.before then some idle_timeout else next
    ] in
    if has_pending_input v r s x.seen
    then some woken
    else if not x.time_remains
    then some idle_timeout
    else waited
