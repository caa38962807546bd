-- ===== src/Db/State.antt =====
-- The state of `sqliteStore` (internal/db/sqlite/sqlite.go): the rows of the two tables, the
-- channel of store events and the calls of the installed listeners.
use amplio.Common.{ℕ, ◌+◌, String, Bool, ◌||◌, List, [], ◌∷◌, ◌++◌, leb, if◌then◌else◌, length}
use amplio.Event.{Event, Status}
use amplio.Db.Types.{SessionRecord, EventRecord}

-- `StoreEvent` of internal/db/events.go, as far as runs, sessions and events send them.
pub data StoreEvent : Type 0 where
  session_created : String → String → String → String → StoreEvent
  event_appended : String → String → StoreEvent
  step_advanced : String → String → ℕ → StoreEvent
  session_status_changed : String → String → Status → StoreEvent
  run_updated : String → StoreEvent

-- One call of a listener: `fireCommit` (with the step that `setEventStep` puts into the event),
-- `fireStepFinalized`, `fireSessionStatusChanged`.
pub data Fired : Type 0 where
  commit : String → String → Event → ℕ → Fired
  step_finalized : String → String → ℕ → Fired
  status_changed : String → String → Status → Fired

-- `clock` is the time that SQLite and `time.Now` give; `next_id` stands for the fresh id that
-- `NewEventID` draws. `queue` is the buffered channel `events`, `closed` its flag.
pub record Store : Type 0 where
  pub sessions : List SessionRecord
  pub events : List EventRecord
  pub clock : ℕ
  pub next_id : ℕ
  pub queue : List StoreEvent
  pub capacity : ℕ
  pub closed : Bool
  pub fired : List Fired

-- Why an operation fails. Each of them is tagged with `db.ErrStore` by the store's boundary.
pub data Error : Type 0 where
  driver_fault : Error
  no_rows : Error
  duplicate_key : Error
  boundary_out_of_range : Error

pub data Result {ℓ} (A : Type ℓ) : Type ℓ where
  ok : A → Result A
  err : Error → Result A

-- Whether SQLite refuses the statement or transaction about a session (run, session), in a state.
-- A refused transaction is rolled back. In one state the reads and the writes about a session are
-- refused together.
abbrev pub Driver : Type 0
Driver = String → String → Store → Bool

abbrev pub Op : Type 0 → Type 0
Op A = Store → Result A × Store

-- `emit`: dropped when the channel is closed or full.
unfoldable pub emit : StoreEvent → Store → Store
emit e d =
    if d.closed || leb d.capacity (length d.queue)
    then d
    else record d { queue = d.queue ++ e ∷ [] }

unfoldable pub fire : Fired → Store → Store
fire f d = record d { fired = d.fired ++ f ∷ [] }

-- `INSERT INTO Event`
unfoldable pub insert_event : String → String → ℕ → ℕ → Event → Store → Store
insert_event r s step gen e d = record d {
  events =
      d.events
      ++ record {
        run_id = r;
        session_id = s;
        event_id = d.next_id;
        step = step;
        generation = gen;
        event = e;
        created_at = d.clock;
      }
        ∷ [];
  next_id = d.next_id + 1;
}
