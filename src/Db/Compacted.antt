-- ===== src/Db/Compacted.antt =====
-- The context after `CompactContext` of internal/db/sqlite/sqlite.go.
use amplio.Common.{
  All-map, ℕ, ◌+◌, ◌≤◌, ◌<◌, ◌⊎◌, inl, inr, Bool-cases, String, Bool, true, false, ◌&&◌, ◌||◌, ◌≡◌,
  refl, sym, ap, ◌∙◌, List, [], ◌∷◌, ◌++◌, Option, none, some, arith, All, map, filter,
  filter-append, ltb, ◌==◌, eq_iff,
}
use mathlib.Core.Option
use amplio.Event.{compaction}
use amplio.Db.Types.{SessionRecord, EventRecord, current_context}
use amplio.Db.State.{Store, Driver, ok, insert_event}
use amplio.Db.Rows.{find_row, find_session, update_session, is_event_of}
use amplio.Db.Keys.{find-update_self}
use amplio.Db.Frame.{sessions-emit, events-emit, new_event, is_event_of_self}
use amplio.Db.Order.{not_after, insert_row, order_rows}
use amplio.Db.Calls.{healthy}
use amplio.Db.Events.{get_events, matching, filter_clause, in_generation}
use amplio.Db.Compact.{compact_context, carry, is_carried}
use amplio.Db.Reach.{Reached, RowReached, IsReached}

-- What a compaction at a boundary keeps of a context: the bootstrap rows, and what is after it.
abbrev pub kept : ℕ → EventRecord → Bool
kept boundary e = e.step == 0 || ltb boundary e.step

-- A row is in the context of a session in a generation.
abbrev in_context : String → String → ℕ → EventRecord → Bool
in_context r s gen e = is_event_of r s e && ((e.step == 0 || e.generation == gen) && true)

module _ (r s : String) (gen boundary : ℕ) where
  carried_in :
      (e : EventRecord)
      → (is_event_of r s e ≡ true → e.generation ≤ gen)
      → in_context r s (gen + 1) (carry r s gen boundary e)
        ≡ (in_context r s gen e && kept boundary e)
  unfolding carry is_carried is_event_of
  carried_in e reached = ground (arith, reached)

  context-carry :
      (xs : List EventRecord)
      → All (λ e. is_event_of r s e ≡ true → e.generation ≤ gen) xs
      → filter (in_context r s (gen + 1)) (map (carry r s gen boundary) xs)
        ≡ map (carry r s gen boundary) (filter (kept boundary) (filter (in_context r s gen) xs))
  context-carry [] all = refl
  context-carry (e ∷ xs) all = ground (arith, carried_in e all.0, context-carry xs all.1)

abbrev generation_of : Option SessionRecord → ℕ
generation_of none = 0
generation_of (some x) = x.current_generation

row-le :
    (r s : String) (l : List SessionRecord) {x : SessionRecord} (e : EventRecord)
    → find_row r s l ≡ some x
    → RowReached l e
    → is_event_of r s e ≡ true
    → e.generation ≤ x.current_generation
unfolding Reached is_event_of
row-le r s l {x} e found (y, at, le) own =
    let p : e.run_id ≡ r = ground (arith, eq_iff e.run_id r, eq_iff e.session_id s) in
    let q : e.session_id ≡ s = ground (arith, eq_iff e.run_id r, eq_iff e.session_id s) in
    let at' : find_row r s l ≡ some y = rw (← p, ← q) at in
    omega (arith, le, ap generation_of (sym at' ∙ found))

matching-context :
    (r s : String) (d : Store) {x : SessionRecord}
    → find_session r s d ≡ some x
    → matching r s current_context d ≡ filter (in_context r s x.current_generation) d.events
unfolding matching filter_clause in_generation
matching-context r s d found = rw found

summary-in_context :
    (r s : String) (boundary : ℕ) (text : String) (d : Store) (n : ℕ)
    → in_context r s n (new_event r s boundary n (compaction text) d) ≡ true
summary-in_context r s boundary text d n =
    ground (arith, is_event_of_self r s boundary n (compaction text) d)

module _ (v : Driver) (r s : String) (boundary : ℕ) (text : String) (d : Store) {x : SessionRecord}
    (g : ℕ) (found : find_session r s d ≡ some x)
    (done : (compact_context v r s boundary text d).0 ≡ ok g) where
  accepted : (v r s d ≡ false) × ((ltb boundary 1 || ltb x.current_step boundary) ≡ false)
  unfolding compact_context
  accepted = ground (arith, found, done)

  events-compact :
      (compact_context v r s boundary text d).1.events
      ≡ map (carry r s x.current_generation boundary) d.events
        ++ new_event r s boundary (x.current_generation + 1) (compaction text) d ∷ []
  unfolding compact_context insert_event update_session
  events-compact = rw (compact_context, accepted.0, found, accepted.1, events-emit) refl

  found-compact :
      find_session r s (compact_context v r s boundary text d).1
      ≡ some (record x { current_generation = x.current_generation + 1 })
  unfolding compact_context insert_event update_session find_session
  found-compact =
      rw (compact_context, accepted.0, found, accepted.1, sessions-emit)
        (find-update_self (record { run = λ y. refl; session = λ y. refl }) r s d.sessions
          ∙ ap (Option.map _) found)

carried_context :
    (v : Driver) (r s : String) (boundary : ℕ) (text : String) (d : Store) {x : SessionRecord}
    (g : ℕ)
    → IsReached d
    → find_session r s d ≡ some x
    → (compact_context v r s boundary text d).0 ≡ ok g
    → matching r s current_context (compact_context v r s boundary text d).1
      ≡ map
          (carry r s x.current_generation boundary)
          (filter (kept boundary) (matching r s current_context d))
        ++ new_event r s boundary (x.current_generation + 1) (compaction text) d ∷ []
unfolding IsReached find_session
carried_context v r s boundary text d {x} g reached found done =
    let next = x.current_generation + 1 in
    let all =
      All-map (RowReached d.sessions) _ d.events (λ e. row-le r s d.sessions e found) reached in
    rw (
      matching-context r s d found,
      matching-context r s (compact_context v r s boundary text d).1
          (found-compact v r s boundary text d g found done),
      events-compact v r s boundary text d g found done,
      filter-append (in_context r s next) (map (carry r s x.current_generation boundary) d.events)
          (new_event r s boundary next (compaction text) d ∷ []),
      context-carry r s x.current_generation boundary d.events all,
      summary-in_context r s boundary text d next,
    )

-- The rows of a list around one whose step none of them has.
abbrev before_row : EventRecord → EventRecord → Bool
before_row s e = ltb e.step s.step

abbrev after_row : EventRecord → EventRecord → Bool
after_row s e = ltb s.step e.step

insert_row-before :
    (x s : EventRecord) (l m : List EventRecord)
    → x.step < s.step
    → insert_row x (l ++ s ∷ m) ≡ insert_row x l ++ s ∷ m
unfolding insert_row not_after
insert_row-before x s [] m h = ground (arith, h)
insert_row-before x s (y ∷ l) m h = ground (arith, insert_row-before x s l m h)

insert_row-after :
    (x s : EventRecord) (l m : List EventRecord)
    → s.step < x.step
    → All (λ y. y.step < s.step) l
    → insert_row x (l ++ s ∷ m) ≡ l ++ s ∷ insert_row x m
unfolding insert_row not_after
insert_row-after x s [] m h all = ground (arith, h)
insert_row-after x s (y ∷ l) m h (p, all) = ground (arith, h, p, insert_row-after x s l m h all)

insert_row-All :
    (P : EventRecord → Type 0) (x : EventRecord) (l : List EventRecord)
    → P x
    → All P l
    → All P (insert_row x l)
unfolding insert_row
insert_row-All P x [] p all = (p, tt)
insert_row-All P x (y ∷ l) p (q, all) = elim (Bool-cases (not_after x y)) [
  | inl first ↦ rw first (p, (q, all))
  | inr later ↦ rw later (q, insert_row-All P x l p all)
]

ordered_before :
    (s : EventRecord) (xs : List EventRecord)
    → All (λ y. y.step < s.step) (order_rows (filter (before_row s) xs))
unfolding order_rows
ordered_before s [] = tt
ordered_before s (x ∷ xs) = elim (Bool-cases (before_row s x)) [
  | inl early ↦
      rw (filter, early)
        (insert_row-All (λ y. y.step < s.step) x (order_rows (filter (before_row s) xs))
          (ground (arith, early)) (ordered_before s xs))
  | inr late ↦ rw (filter, late) (ordered_before s xs)
]

-- In order, such a row parts the others.
order_rows-snoc :
    (s : EventRecord) (xs : List EventRecord)
    → All (λ e. (e.step < s.step) ⊎ (s.step < e.step)) xs
    → order_rows (xs ++ s ∷ [])
      ≡ order_rows (filter (before_row s) xs) ++ s ∷ order_rows (filter (after_row s) xs)
unfolding order_rows insert_row
order_rows-snoc s [] all = refl
order_rows-snoc s (x ∷ xs) (inl early, all) =
    let low : before_row s x ≡ true = ground (arith, early) in
    let not_high : after_row s x ≡ false = ground (arith, early) in
    rw (filter, low, not_high)
      (ap (insert_row x) (order_rows-snoc s xs all)
        ∙ insert_row-before x s (order_rows (filter (before_row s) xs)) _ early)
order_rows-snoc s (x ∷ xs) (inr late, all) =
    let not_low : before_row s x ≡ false = ground (arith, late) in
    let high : after_row s x ≡ true = ground (arith, late) in
    rw (filter, not_low, high)
      (ap (insert_row x) (order_rows-snoc s xs all)
        ∙ insert_row-after x s (order_rows (filter (before_row s) xs)) _ late (ordered_before s xs))

step-carry :
    (r s : String) (gen boundary : ℕ) (e : EventRecord) → (carry r s gen boundary e).step ≡ e.step
unfolding carry is_carried
step-carry r s gen boundary e = ground arith

carried_apart :
    (r s : String) (gen boundary : ℕ) (xs : List EventRecord)
    → 1 ≤ boundary
    → All
        (λ e. (e.step < boundary) ⊎ (boundary < e.step))
        (map (carry r s gen boundary) (filter (kept boundary) xs))
carried_apart r s gen boundary [] h = tt
carried_apart r s gen boundary (x ∷ xs) h = elim (Bool-cases (kept boundary x)) [
  | inr dropped ↦ rw (filter, dropped) (carried_apart r s gen boundary xs h)
  | inl stays ↦
      rw (filter, stays)
        (
          elim (Bool-cases (ltb boundary x.step)) [
            | inl after ↦ inr (ground (arith, after, step-carry r s gen boundary x))
            | inr first ↦ inl (ground (arith, first, stays, h, step-carry r s gen boundary x))
          ],
          carried_apart r s gen boundary xs h,
        )
]

abbrev pub carried_rows : String → String → ℕ → ℕ → Store → List EventRecord
carried_rows r s gen boundary d =
    map (carry r s gen boundary) (filter (kept boundary) (matching r s current_context d))

-- After a compaction that succeeds at a boundary, a read of the session's context returns, in the
-- order of their steps, the bootstrap rows (step 0), then the summary, at the boundary, and then the
-- rows of the context after the boundary, moved to the new generation. The rows of the store before
-- it are of generations that their sessions have reached.
pub compacted_context :
    (v : Driver) (r s : String) (boundary : ℕ) (text : String) (d : Store) {x : SessionRecord}
    (g : ℕ)
    → IsReached d
    → find_session r s d ≡ some x
    → (compact_context v r s boundary text d).0 ≡ ok g
    → (get_events healthy r s current_context (compact_context v r s boundary text d).1).0
      ≡ ok (
          order_rows
            (filter (λ e. ltb e.step boundary) (carried_rows r s x.current_generation boundary d))
          ++ new_event r s boundary (x.current_generation + 1) (compaction text) d
            ∷ order_rows (
                filter
                  (λ e. ltb boundary e.step)
                  (carried_rows r s x.current_generation boundary d)))
unfolding get_events
compacted_context v r s boundary text d {x} g reached found done =
    let summary = new_event r s boundary (x.current_generation + 1) (compaction text) d in
    let bounds = (accepted v r s boundary text d g found done).1 in
    ap (λ l. ok (order_rows l)) (carried_context v r s boundary text d g reached found done)
    ∙ ap ok (
        order_rows-snoc summary (carried_rows r s x.current_generation boundary d) (
          carried_apart r s x.current_generation boundary (matching r s current_context d)
            (ground (arith, bounds))))
