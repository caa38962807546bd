-- ===== src/Db/Sessions.antt =====
-- Session operations of internal/db/sqlite/sqlite.go.
use amplio.Common.{
  ℕ, ◌+◌, String, Bool, not, ◌&&◌, List, [], ◌∷◌, ◌++◌, none, some, max, str_eq, leb, ltb, any,
  filter, if◌then◌else◌,
}
use amplio.Event.{Status}
use amplio.Db.Types.{SessionRecord}
use amplio.Db.State.{
  Driver, Op, ok, err, driver_fault, no_rows, duplicate_key, emit, fire, session_created,
  step_advanced, session_status_changed, status_changed, step_finalized,
}
use amplio.Db.Rows.{is_session, find_session, update_session}

-- The columns that the INSERT leaves out take their defaults.
abbrev pub new_row : SessionRecord → ℕ → SessionRecord
new_row s now = record s {
  current_step = 0;
  current_generation = 0;
  status_changed_at = now;
  last_finalized_step = 0;
  last_summarized_step = 0;
  last_phased_step = 0;
}

-- A listing is sorted by `created_at`, oldest first.
unfoldable pub insert_session : SessionRecord → List SessionRecord → List SessionRecord
insert_session x [] = x ∷ []
insert_session x (y ∷ ys) =
    if leb x.created_at y.created_at then x ∷ y ∷ ys else y ∷ insert_session x ys

unfoldable pub order_sessions : List SessionRecord → List SessionRecord
order_sessions [] = []
order_sessions (x ∷ xs) = insert_session x (order_sessions xs)

abbrev is_child : String → String → SessionRecord → Bool
is_child r parent x = str_eq x.run_id r && str_eq x.parent_id parent

module _ (driver : Driver) where
  -- `CreateSession`: the primary key refuses a second row of the same session.
  unfoldable pub create_session : SessionRecord → Op (Unit {0})
  create_session s d =
      if driver s.run_id s.session_id d
      then (err driver_fault, d)
      else if any (is_session s.run_id s.session_id) d.sessions
      then (err duplicate_key, d)
      else (
        ok tt,
        emit (session_created s.run_id s.session_id s.parent_id s.agent_type)
            (record d { sessions = d.sessions ++ new_row s d.clock ∷ [] }),
      )

  -- `GetSession`
  unfoldable pub get_session : String → String → Op SessionRecord
  get_session r s d =
      if driver r s d
      then (err driver_fault, d)
      else elim (find_session r s d) [ none ↦ (err no_rows, d) | some x ↦ (ok x, d) ]

  -- `ListSessions`
  unfoldable pub list_sessions : String → Op (List SessionRecord)
  list_sessions r d =
      if driver r "" d
      then (err driver_fault, d)
      else (ok (order_sessions (filter (λ x. str_eq x.run_id r) d.sessions)), d)

  -- `GetChildSessions`
  unfoldable pub get_child_sessions : String → String → Op (List SessionRecord)
  get_child_sessions r parent d =
      if driver r parent d
      then (err driver_fault, d)
      else (ok (order_sessions (filter (is_child r parent) d.sessions)), d)

  -- `UpdateSessionStatus`: no row is no error.
  unfoldable pub update_session_status : String → String → Status → Op (Unit {0})
  update_session_status r s status d = if driver r s d then (err driver_fault, d) else (
    ok tt,
    fire (status_changed r s status) (
        emit (session_status_changed r s status)
          (update_session r s (λ x. record x { status = status; status_changed_at = d.clock }) d)),
  )

  -- `AdvanceStep`: returns the step after the bump.
  unfoldable pub advance_step : String → String → Op ℕ
  advance_step r s d = if driver r s d then (err driver_fault, d) else elim (find_session r s d) [
    | none ↦ (err no_rows, d)
    | some x ↦ (
      ok (x.current_step + 1),
      emit (step_advanced r s (x.current_step + 1))
          (update_session r s (λ y. record y { current_step = y.current_step + 1 }) d),
    )
  ]

  -- `MarkStepFinalized`
  unfoldable pub mark_step_finalized : String → String → ℕ → Op (Unit {0})
  mark_step_finalized r s step d = if driver r s d then (err driver_fault, d) else (
    ok tt,
    fire (step_finalized r s step) (
        update_session r s (λ x. record x { last_finalized_step = max x.last_finalized_step step })
          d),
  )

  -- `SetLastSummarizedStep`
  unfoldable pub set_last_summarized_step : String → String → ℕ → Op (Unit {0})
  set_last_summarized_step r s step d = if driver r s d then (err driver_fault, d) else (
    ok tt,
    update_session r s (λ x. record x { last_summarized_step = max x.last_summarized_step step }) d,
  )

  -- `SetLastPhasedStep`
  unfoldable pub set_last_phased_step : String → String → ℕ → Op (Unit {0})
  set_last_phased_step r s step d = if driver r s d then (err driver_fault, d) else (
    ok tt,
    update_session r s (λ x. record x { last_phased_step = max x.last_phased_step step }) d,
  )

-- The two queries of `ListPendingSessions`.
abbrev step_pending : SessionRecord → Bool
step_pending x = ltb x.last_summarized_step x.last_finalized_step

abbrev phase_pending : SessionRecord → Bool
phase_pending x = ltb x.last_phased_step x.last_summarized_step

-- The rows of the second query that the first one has already listed are skipped.
abbrev pending_rows : List SessionRecord → List SessionRecord
pending_rows xs =
    let first = filter step_pending xs in
    first ++ filter (λ x. phase_pending x && not (any (is_session x.run_id x.session_id) first)) xs

-- `ListPendingSessions`
unfoldable pub list_pending_sessions : Driver → Op (List SessionRecord)
list_pending_sessions driver d =
    if driver "" "" d then (err driver_fault, d) else (ok (pending_rows d.sessions), d)
