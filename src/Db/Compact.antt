-- ===== src/Db/Compact.antt =====
-- `CompactContext` of internal/db/sqlite/sqlite.go.
use amplio.Common.{ℕ, ◌+◌, String, Bool, ◌&&◌, ◌||◌, none, some, ltb, ◌==◌, if◌then◌else◌, map}
use amplio.Event.{compaction}
use amplio.Db.Types.{EventRecord}
use amplio.Db.State.{
  Store, Driver, Op, ok, err, driver_fault, no_rows, boundary_out_of_range, emit, insert_event,
  event_appended,
}
use amplio.Db.Rows.{is_event_of, find_session, update_session}

-- WHERE ... AND generation = ? AND step > ?
unfoldable pub is_carried : String → String → ℕ → ℕ → EventRecord → Bool
is_carried r s gen boundary x = is_event_of r s x && (x.generation == gen && ltb boundary x.step)

unfoldable pub carry : String → String → ℕ → ℕ → EventRecord → EventRecord
carry r s gen boundary x =
    if is_carried r s gen boundary x then record x { generation = gen + 1 } else x

abbrev set_generation : String → String → ℕ → Store → Store
set_generation r s gen d = update_session r s (λ x. record x { current_generation = gen }) d

abbrev carry_events : String → String → ℕ → ℕ → Store → Store
carry_events r s gen boundary d = record d { events = map (carry r s gen boundary) d.events }

-- Returns the new generation.
unfoldable pub compact_context : Driver → String → String → ℕ → String → Op ℕ
compact_context driver r s boundary summary d =
    if driver r s d then (err driver_fault, d) else elim (find_session r s d) [
      | none ↦ (err no_rows, d)
      | some x ↦
          if ltb boundary 1 || ltb x.current_step boundary
          then (err boundary_out_of_range, d)
          else (
            ok (x.current_generation + 1),
            emit (event_appended r s) (
                insert_event r s boundary (x.current_generation + 1) (compaction summary) (
                  carry_events r s x.current_generation boundary
                    (set_generation r s (x.current_generation + 1) d))),
          )
    ]
