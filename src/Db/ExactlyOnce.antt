-- ===== src/Db/ExactlyOnce.antt =====
-- Repeated terminations: `TerminateAndNotifyParent` of internal/db/sqlite/sqlite.go, with the
-- child results that a parent's stream holds.
use amplio.Common.{
  ℕ, ◌+◌, String, Bool, true, false, ◌&&◌, ◌≡◌, ◌≢◌, refl, inr, List, [], ◌∷◌, ◌++◌, Option, none,
  some, arith, eq_iff, ◌∙◌, ap, str_eq, if◌then◌else◌, filter, length, filter-append, length-append,
}
use mathlib.Core.Option
use amplio.Event.{Event, Status, child_result}
use amplio.Db.Types.{SessionRecord, EventRecord, is_terminal}
use amplio.Db.State.{Store, fire, insert_event}
use amplio.Db.Rows.{find_session, update_session, is_event_of}
use amplio.Db.Keys.{find-update_self, find-update_ne}
use amplio.Db.Frame.{
  sessions-emit, events-emit, events-insert, is_event_of_self, is_event_of-ne, status-KeepsKey,
  new_event,
}
use amplio.Db.Calls.{healthy}
use amplio.Db.Terminate.{terminate, insert_self, settle, announce_to_parent, notify_parent, step_or}

abbrev pub is_result_of : String → Event → Bool
is_result_of child (child_result content who verdict) = str_eq who child
is_result_of child _ = false

-- How many results of a child stand in its parent's stream.
unfoldable pub results : String → String → String → List EventRecord → ℕ
results r parent child xs =
    length (filter (λ x. is_event_of r parent x && is_result_of child x.event) xs)

-- One call of `TerminateAndNotifyParent` on the session.
pub record Attempt : Type 0 where
  pub status : Status
  pub content : String
  pub self : Option Event
  pub step : Option ℕ
  pub final : is_terminal status ≡ true

pub attempt : String → String → String → Attempt → Store → Store
attempt r s parent a d = (terminate r s healthy parent a.status a.content a.self a.step d).1

pub attempt_all : String → String → String → List Attempt → Store → Store
attempt_all r s parent [] d = d
attempt_all r s parent (a ∷ as') d = attempt_all r s parent as' (attempt r s parent a d)

-- A terminal session is left alone, whatever the call asks for.
pub terminate_again :
    (r s parent : String) (a : Attempt) (d : Store) {x : SessionRecord}
    → find_session r s d ≡ some x
    → is_terminal x.status ≡ true
    → attempt r s parent a d ≡ d
unfolding attempt terminate
terminate_again r s parent a d h t = ground arith

results-snoc :
    (r parent child : String) (xs : List EventRecord) (y : EventRecord)
    → results r parent child (xs ++ y ∷ []) ≡ (
        if is_event_of r parent y && is_result_of child y.event
        then results r parent child xs + 1
        else results r parent child xs)
unfolding results
results-snoc r parent child xs y = ground (
  arith,
  filter-append (λ x. is_event_of r parent x && is_result_of child x.event) xs (y ∷ []),
  length-append (filter (λ x. is_event_of r parent x && is_result_of child x.event) xs) (y ∷ []),
  length-append (filter (λ x. is_event_of r parent x && is_result_of child x.event) xs) [],
)

-- The self-marker stands in the child's own stream, and is not counted.
results-insert_self :
    (r s parent : String) (self : Option Event) (step : Option ℕ) (x : SessionRecord) (d : Store)
    → s ≢ parent
    → results r parent s (insert_self r s self step x d).events ≡ results r parent s d.events
unfolding insert_self insert_event
results-insert_self r s parent none step x d ne = refl
results-insert_self r s parent (some e) step x d ne =
    let n = step_or step x.current_step in
    ground (
      arith,
      results-snoc r parent s d.events (new_event r s n x.current_generation e d),
      is_event_of-ne r parent r s n x.current_generation e d (inr ne),
    )

pub sessions-insert_self :
    (r s : String) (self : Option Event) (step : Option ℕ) (x : SessionRecord) (d : Store)
    → (insert_self r s self step x d).sessions ≡ d.sessions
unfolding insert_self insert_event
sessions-insert_self r s none step x d = refl
sessions-insert_self r s (some e) step x d = refl

module _ (r s parent : String) (a : Attempt) (d : Store) {x p : SessionRecord}
    (found : find_session r s d ≡ some x) (live : is_terminal x.status ≡ false) (apart : s ≢ parent)
    (known : find_session r parent d ≡ some p) (named : parent ≢ "") where
  abbrev settled : Store
  settled = insert_self r s a.self a.step x (settle r s a.status d)

  -- The parent's row is as it was.
  parent-settled : find_session r parent settled ≡ some p
  unfolding find_session settle update_session
  parent-settled = rw (sessions-insert_self r s a.self a.step x) (
      find-update_ne (status-KeepsKey a.status d.clock) r s r parent d.sessions (inr apart) ∙ known)

  self-settled :
      find_session r s settled ≡ some (record x { status = a.status; status_changed_at = d.clock })
  unfolding find_session settle update_session
  self-settled =
      rw (sessions-insert_self r s a.self a.step x) (
        find-update_self (status-KeepsKey a.status d.clock) r s d.sessions
        ∙ ap (Option.map _) found)

  attempt-live :
      attempt r s parent a d
      ≡ announce_to_parent r s parent a.status (child_result a.content s a.status) p.current_step (
          insert_event r parent p.current_step p.current_generation
            (child_result a.content s a.status)
            settled)
  unfolding attempt terminate notify_parent
  attempt-live = ground (arith, parent-settled, eq_iff parent "")

  -- The settled session has its last status, and the parent one more result.
  pub attempt-status :
      (x' : SessionRecord) × (find_session r s (attempt r s parent a d) ≡ some x')
      × (x'.status ≡ a.status)
  unfolding find_session announce_to_parent fire insert_event
  attempt-status = (
    record x { status = a.status; status_changed_at = d.clock },
    rw (attempt-live, sessions-emit, sessions-emit) self-settled,
    refl,
  )

  pub attempt-results :
      results r parent s (attempt r s parent a d).events ≡ results r parent s d.events + 1
  unfolding announce_to_parent fire settle update_session
  attempt-results =
      simp (attempt-live, events-emit, events-insert)
        (ground (
          arith,
          results-snoc r parent s settled.events (
              new_event r parent p.current_step p.current_generation
                (child_result a.content s a.status) settled),
          is_event_of_self r parent p.current_step p.current_generation
              (child_result a.content s a.status) settled,
          eq_iff s s,
          results-insert_self r s parent a.self a.step x (settle r s a.status d) apart,
        ))

terminated_stays :
    (r s parent : String) (as' : List Attempt) (d : Store) {x : SessionRecord}
    → find_session r s d ≡ some x
    → is_terminal x.status ≡ true
    → attempt_all r s parent as' d ≡ d
unfolding attempt_all
terminated_stays r s parent [] d h t = refl
terminated_stays r s parent (a ∷ as') d h t =
    rw (terminate_again r s parent a d h t) (terminated_stays r s parent as' d h t)

-- Terminating a live session any number of times, at least once, by whatever attempts, leaves
-- the status of the first attempt and exactly one more result of it in the stream of its parent.
pub child_result_once :
    (r s parent : String) (a : Attempt) (more : List Attempt) (d : Store) {x p : SessionRecord}
    → find_session r s d ≡ some x
    → is_terminal x.status ≡ false
    → s ≢ parent
    → find_session r parent d ≡ some p
    → parent ≢ ""
    → (results r parent s (attempt_all r s parent (a ∷ more) d).events
        ≡ results r parent s d.events + 1)
      × ((x' : SessionRecord) × (find_session r s (attempt_all r s parent (a ∷ more) d) ≡ some x')
          × (x'.status ≡ a.status))
unfolding attempt_all
child_result_once r s parent a more d found live apart known named =
    let (x', at, status) = attempt-status r s parent a d found live apart known named in
    rw (terminated_stays r s parent more (attempt r s parent a d) at (rw status a.final))
      (attempt-results r s parent a d found live apart known named, (x', at, status))
