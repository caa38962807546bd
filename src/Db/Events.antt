-- ===== src/Db/Events.antt =====
-- Event operations of internal/db/sqlite/sqlite.go.
use amplio.Common.{
  ℕ, String, Bool, true, false, ◌&&◌, ◌||◌, List, [], ◌∷◌, Option, none, some, max, leb, ◌==◌,
  filter, length, if◌then◌else◌,
}
use amplio.Event.{Event, SenderType, environment, message}
use amplio.Db.Types.{SessionRecord, EventRecord, EventFilter}
use amplio.Db.State.{
  Store, Driver, Op, ok, err, driver_fault, no_rows, emit, fire, insert_event, event_appended,
  commit, step_finalized,
}
use amplio.Db.Rows.{is_event_of, find_session, update_session}
use amplio.Db.Order.{order_rows}

-- generation = (SELECT current_generation ...): with no session row nothing is equal.
unfoldable pub in_generation : EventRecord → Option SessionRecord → Bool
in_generation x none = false
in_generation x (some s) = x.generation == s.current_generation

abbrev pub from_step : Option ℕ → ℕ → Bool
from_step none step = true
from_step (some lo) step = leb lo step

abbrev pub until_step : Option ℕ → ℕ → Bool
until_step none step = true
until_step (some hi) step = leb step hi

-- `eventFilterClause`: the WHERE tail that GetEvents and GetEventCount share.
unfoldable pub filter_clause : Option SessionRecord → EventFilter → EventRecord → Bool
unfolding in_generation
filter_clause session f x =
    (if f.current_context_only then x.step == 0 || in_generation x session else true)
    && (from_step f.start_step x.step && until_step f.end_step x.step)

unfoldable pub matching : String → String → EventFilter → Store → List EventRecord
matching r s f d =
    filter (λ x. is_event_of r s x && filter_clause (find_session r s d) f x) d.events

-- The newest row by (step, created_at).
unfoldable pub last_row : List EventRecord → Option EventRecord
last_row [] = none
last_row (x ∷ []) = some x
last_row (x ∷ y ∷ ys) = last_row (y ∷ ys)

abbrev is_environment : SenderType → Bool
is_environment environment = true
is_environment _ = false

-- json_extract(data, '$.type') = 'message' AND json_extract(data, '$.sender_type') = 'environment'
unfoldable pub is_env_notification : Event → Bool
is_env_notification (message content sender sender_type) = is_environment sender_type
is_env_notification _ = false

-- step = (SELECT current_step ...)
abbrev at_current_step : Option SessionRecord → ℕ → Bool
at_current_step none step = false
at_current_step (some s) step = step == s.current_step

-- The inserts of one transaction, and the commits fired after it.
unfoldable pub insert_all : String → String → ℕ → ℕ → List Event → Store → Store
insert_all r s step gen [] d = d
insert_all r s step gen (e ∷ es) d = insert_all r s step gen es (insert_event r s step gen e d)

unfoldable pub fire_all : String → String → ℕ → List Event → Store → Store
fire_all r s step [] d = d
fire_all r s step (e ∷ es) d = fire_all r s step es (fire (commit r s e step) d)

module _ (driver : Driver) (r s : String) where
  -- `AppendEvent`: at the session's current step. Returns the id of the event.
  unfoldable pub append_event : Event → Op ℕ
  append_event e d = if driver r s d then (err driver_fault, d) else elim (find_session r s d) [
    | none ↦ (err no_rows, d)
    | some x ↦ (
      ok d.next_id,
      fire (commit r s e x.current_step)
          (emit (event_appended r s) (insert_event r s x.current_step x.current_generation e d)),
    )
  ]

  -- `AppendEventAtStep`
  unfoldable pub append_event_at_step : ℕ → Event → Op (Unit {0})
  append_event_at_step step e d =
      if driver r s d then (err driver_fault, d) else elim (find_session r s d) [
        | none ↦ (err no_rows, d)
        | some x ↦ (
          ok tt,
          fire (commit r s e step)
              (emit (event_appended r s) (insert_event r s step x.current_generation e d)),
        )
      ]

  -- `FinalizeStep`: the events, the cursor and one notification, in one transaction.
  unfoldable pub finalize_step : ℕ → List Event → Op (Unit {0})
  finalize_step step es d =
      if driver r s d then (err driver_fault, d) else elim (find_session r s d) [
        | none ↦ (err no_rows, d)
        | some x ↦ (
          ok tt,
          fire (step_finalized r s step) (
              fire_all r s step es (
                emit (event_appended r s) (
                  update_session r s
                    (λ y. record y { last_finalized_step = max y.last_finalized_step step })
                    (insert_all r s step x.current_generation es d)))),
        )
      ]

  -- `GetEvents`
  unfoldable pub get_events : EventFilter → Op (List EventRecord)
  get_events f d =
      if driver r s d then (err driver_fault, d) else (ok (order_rows (matching r s f d)), d)

  -- `GetEventCount`
  unfoldable pub get_event_count : EventFilter → Op ℕ
  get_event_count f d =
      if driver r s d then (err driver_fault, d) else (ok (length (matching r s f d)), d)

  -- `CountEnvNotices`
  unfoldable pub count_env_notices : Op ℕ
  count_env_notices d = if driver r s d then (err driver_fault, d) else (
    ok (
        length (
          filter
            (λ x.
              is_event_of r s x
              && (at_current_step (find_session r s d) x.step && is_env_notification x.event))
            d.events)),
    d,
  )

  -- `GetTailEvent`: the last row of the whole stream, if there is one.
  unfoldable pub get_tail_event : Op (Option EventRecord)
  get_tail_event d =
      if driver r s d
      then (err driver_fault, d)
      else (ok (last_row (order_rows (filter (is_event_of r s) d.events))), d)
