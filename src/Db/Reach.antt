-- ===== src/Db/Reach.antt =====
-- Which generations the sessions of a store have reached, and the parts of the operations of
-- internal/db/sqlite/sqlite.go that touch them.
use mathlib.Core.Option
use amplio.Common.{
  All-map, All-snoc, ℕ, ◌≤◌, String, ◌≡◌, inl, inr, refl, ap, ◌∙◌, List, [], ◌∷◌, ◌++◌, some, arith,
  All,
}
use amplio.Event.{Event}
use amplio.Db.Types.{SessionRecord, EventRecord}
use amplio.Db.State.{Store, StoreEvent, Fired, emit, fire, insert_event}
use amplio.Db.Rows.{find_row, update_rows, update_session}
use amplio.Db.Keys.{KeepsKey, find-update_self, find-update_ne, key-cases}
use amplio.Db.Frame.{sessions-emit, events-emit}

-- The session has a row, and has reached the generation.
unfoldable pub Reached : List SessionRecord → String → String → ℕ → Type 0
Reached l r s n = (y : SessionRecord) × (find_row r s l ≡ some y) × (n ≤ y.current_generation)

abbrev pub RowReached : List SessionRecord → EventRecord → Type 0
RowReached l e = Reached l e.run_id e.session_id e.generation

unfoldable pub IsReached : Store → Type 0
IsReached d = All (RowReached d.sessions) d.events

-- An update that keeps keys and lowers no generation.
pub record Grows (g : SessionRecord → SessionRecord) : Type 0 where
  pub key : KeepsKey g
  pub generation : (y : SessionRecord) → y.current_generation ≤ (g y).current_generation

pub Reached-update :
    (r' s' : String) {g : SessionRecord → SessionRecord} (l : List SessionRecord) (r s : String)
    (n : ℕ)
    → Grows g
    → Reached l r s n
    → Reached (update_rows r' s' g l) r s n
unfolding Reached
Reached-update r' s' {g} l r s n grows (y, found, le) = elim (key-cases r' s' r s) [
  | inl (p, q) ↦
      rw (p, q)
        (
          g y,
          find-update_self grows.key r s l ∙ ap (Option.map g) found,
          omega (arith, le, grows.generation y),
        )
  | inr ne ↦ (y, find-update_ne grows.key r' s' r s l ne ∙ found, le)
]

find_row-append :
    (r s : String) (l ys : List SessionRecord) {y : SessionRecord}
    → find_row r s l ≡ some y
    → find_row r s (l ++ ys) ≡ some y
unfolding find_row
find_row-append r s [] ys found = absurd (cc found)
find_row-append r s (x ∷ l) ys {y} found = ground (arith, find_row-append r s l ys {y = y})

pub Reached-append :
    (l ys : List SessionRecord) (r s : String) (n : ℕ) → Reached l r s n → Reached (l ++ ys) r s n
unfolding Reached
Reached-append l ys r s n (y, found, le) = (y, find_row-append r s l ys found, le)

pub IsReached-frame :
    (a b : Store) → b.sessions ≡ a.sessions → b.events ≡ a.events → IsReached a → IsReached b
unfolding IsReached
IsReached-frame a b es vs h = rw (es, vs) h

pub IsReached-emit : (e : StoreEvent) (d : Store) → IsReached d → IsReached (emit e d)
IsReached-emit e d h = IsReached-frame d (emit e d) (sessions-emit e d) (events-emit e d) h

pub IsReached-fire : (e : Fired) (d : Store) → IsReached d → IsReached (fire e d)
unfolding fire
IsReached-fire e d h = IsReached-frame d (fire e d) refl refl h

pub IsReached-update :
    (r s : String) {g : SessionRecord → SessionRecord} (d : Store)
    → Grows g
    → IsReached d
    → IsReached (update_session r s g d)
unfolding IsReached update_session
IsReached-update r s d grows h =
    All-map (RowReached d.sessions) (RowReached (update_rows r s _ d.sessions)) d.events
      (λ e p. Reached-update r s d.sessions e.run_id e.session_id e.generation grows p) h

pub IsReached-insert :
    (r s : String) (step n : ℕ) (e : Event) (d : Store)
    → Reached d.sessions r s n
    → IsReached d
    → IsReached (insert_event r s step n e d)
unfolding IsReached insert_event
IsReached-insert r s step n e d known h = All-snoc (RowReached d.sessions) d.events _ h known
