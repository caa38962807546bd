-- ===== src/Db/Frame.antt =====
-- The rows, keys and counters after the parts of the operations of internal/db/sqlite/sqlite.go.
use amplio.Common.{ℕ, String, true, false, ◌≡◌, refl, ◌⊎◌, ◌≢◌, ◌∷◌, [], ◌++◌, arith, eq_iff}
use amplio.Event.{Event, Status}
use amplio.Db.Types.{EventRecord}
use amplio.Db.State.{Store, StoreEvent, emit, insert_event}
use amplio.Db.Rows.{is_event_of}
use amplio.Db.Keys.{KeepsKey}

pub sessions-emit : (e : StoreEvent) (d : Store) → (emit e d).sessions ≡ d.sessions
unfolding emit
sessions-emit e d = ground arith

pub events-emit : (e : StoreEvent) (d : Store) → (emit e d).events ≡ d.events
unfolding emit
events-emit e d = ground arith

pub clock-emit : (e : StoreEvent) (d : Store) → (emit e d).clock ≡ d.clock
unfolding emit
clock-emit e d = ground arith

pub next_id-emit : (e : StoreEvent) (d : Store) → (emit e d).next_id ≡ d.next_id
unfolding emit
next_id-emit e d = ground arith

pub fired-emit : (e : StoreEvent) (d : Store) → (emit e d).fired ≡ d.fired
unfolding emit
fired-emit e d = ground arith

-- The row that `insert_event` adds.
abbrev pub new_event : String → String → ℕ → ℕ → Event → Store → EventRecord
new_event r s step gen e d = record {
  run_id = r;
  session_id = s;
  event_id = d.next_id;
  step = step;
  generation = gen;
  event = e;
  created_at = d.clock;
}

pub events-insert :
    (r s : String) (step gen : ℕ) (e : Event) (d : Store)
    → (insert_event r s step gen e d).events ≡ d.events ++ new_event r s step gen e d ∷ []
unfolding insert_event
events-insert r s step gen e d = refl

pub is_event_of_self :
    (r s : String) (step gen : ℕ) (e : Event) (d : Store)
    → is_event_of r s (new_event r s step gen e d) ≡ true
unfolding is_event_of
is_event_of_self r s step gen e d = ground (arith, eq_iff r r, eq_iff s s)

pub is_event_of-ne :
    (r s r' s' : String) (step gen : ℕ) (e : Event) (d : Store)
    → (r' ≢ r) ⊎ (s' ≢ s)
    → is_event_of r s (new_event r' s' step gen e d) ≡ false
unfolding is_event_of
is_event_of-ne r s r' s' step gen e d ne = ground (arith, eq_iff r' r, eq_iff s' s)

pub status-KeepsKey :
    (status : Status) (now : ℕ)
    → KeepsKey (λ x. record x { status = status; status_changed_at = now })
status-KeepsKey status now = record { run = λ x. refl; session = λ x. refl }
