-- ===== src/Loop/Repair.antt =====
-- The context after `repairOrphanToolCalls` of internal/agent/eventloop/eventloop.go.

use amplio.Common.{
  ℕ, String, Bool, true, false, not, ◌&&◌, ◌||◌, ◌≡◌, refl, ap, ◌∙◌, List, [], ◌∷◌, ◌++◌, some,
  arith, eq_iff, any,
}
use amplio.Event.{Event, tool_result}
use amplio.Db.Types.{SessionRecord, EventRecord, current_context}
use amplio.Db.State.{Store, Result, ok, err, emit, fire, insert_event}
use amplio.Db.Rows.{find_session, is_event_of}
use amplio.Db.Order.{order_rows}
use amplio.Db.Frame.{events-emit, events-insert, new_event, is_event_of_self}
use amplio.Db.Calls.{healthy}
use amplio.Db.Events.{matching, in_generation, filter_clause, get_events, append_event_at_step}
use amplio.Loop.Orphans.{
  is_result_for, has_result, orphans, placeholder, append_placeholders, repair_orphan_tool_calls,
}
use amplio.Loop.Called.{calls, declared, has_key, has_key-orphans, any-filter-snoc, any-order_rows}

module _ (r s : String) where
  abbrev pub context : Store → List EventRecord
  context d = matching r s current_context d

  -- One more result in the context.
  append-sessions :
      (n : ℕ) (e : Event) (d : Store)
      → (append_event_at_step healthy r s n e d).1.sessions ≡ d.sessions
  unfolding append_event_at_step fire insert_event emit
  append-sessions n e d = ground arith

  pub append-found :
      (n : ℕ) (e : Event) (d : Store)
      → find_session r s (append_event_at_step healthy r s n e d).1 ≡ find_session r s d
  unfolding find_session
  append-found n e d = rw (append-sessions n e d)

  pub append-ok :
      (n : ℕ) (e : Event) (d : Store) {x : SessionRecord}
      → find_session r s d ≡ some x
      → (append_event_at_step healthy r s n e d).0 ≡ ok tt
  unfolding append_event_at_step
  append-ok n e d found = rw found

  pub append-events :
      (n : ℕ) (e : Event) (d : Store) {x : SessionRecord}
      → find_session r s d ≡ some x
      → (append_event_at_step healthy r s n e d).1.events
        ≡ d.events ++ new_event r s n x.current_generation e d ∷ []
  unfolding append_event_at_step fire
  append-events n e d found = simp (found, events-emit, events-insert)

  new_event-clause :
      (n : ℕ) (e : Event) (d : Store) (x : SessionRecord)
      → (is_event_of r s (new_event r s n x.current_generation e d)
          && filter_clause (some x) current_context (new_event r s n x.current_generation e d))
        ≡ true
  unfolding filter_clause in_generation
  new_event-clause n e d x = ground (arith, is_event_of_self r s n x.current_generation e d)

  -- A test of some row of the context, after an append: the new row is in the context.
  pub any-context :
      (q : EventRecord → Bool) (n : ℕ) (e : Event) (d : Store) {x : SessionRecord}
      → find_session r s d ≡ some x
      → any q (context (append_event_at_step healthy r s n e d).1)
        ≡ (any q (context d) || q (new_event r s n x.current_generation e d))
  unfolding matching
  any-context q n e d {x = x} found =
      rw (append-found n e d, append-events n e d found, found)
        (any-filter-snoc q (λ y. is_event_of r s y && filter_clause (some x) current_context y)
          d.events (new_event r s n x.current_generation e d) (new_event-clause n e d x))

  append_placeholders-cons :
      (k : String) (n : ℕ) (os : List (String × ℕ)) (d : Store) {x : SessionRecord}
      → find_session r s d ≡ some x
      → append_placeholders healthy r s ((k, n) ∷ os) d
        ≡ append_placeholders healthy r s os
            (append_event_at_step healthy r s n (tool_result (placeholder k)) d).1
  unfolding append_placeholders
  append_placeholders-cons k n os d found =
      rw (append_placeholders, append-ok n (tool_result (placeholder k)) d found) refl

  results-append_placeholders :
      (id : String) (os : List (String × ℕ)) (d : Store) {x : SessionRecord}
      → find_session r s d ≡ some x
      → has_result id (context (append_placeholders healthy r s os d).1)
        ≡ (has_result id (context d) || has_key id os)
  unfolding append_placeholders has_key has_result is_result_for
  results-append_placeholders id [] d found = ground arith
  results-append_placeholders id ((k, n) ∷ os) d {x = x} found =
      let e = tool_result (placeholder k) in
      let d' = (append_event_at_step healthy r s n e d).1 in
      let later = results-append_placeholders id os d' (append-found n e d ∙ found) in
      let one = any-context (λ y. is_result_for id y.event) n e d found in
      rw (append_placeholders-cons k n os d found) (ground (arith, later, one))

  declared-append_placeholders :
      (id : String) (os : List (String × ℕ)) (d : Store) {x : SessionRecord}
      → find_session r s d ≡ some x
      → declared id (context (append_placeholders healthy r s os d).1) ≡ declared id (context d)
  unfolding append_placeholders declared
  declared-append_placeholders id [] d found = refl
  declared-append_placeholders id ((k, n) ∷ os) d {x = x} found =
      let e = tool_result (placeholder k) in
      let d' = (append_event_at_step healthy r s n e d).1 in
      let later = declared-append_placeholders id os d' (append-found n e d ∙ found) in
      let one = any-context (λ y. calls id y.event) n e d found in
      rw (append_placeholders-cons k n os d found) (ground (arith, later, one))

  append_placeholders-ok :
      (os : List (String × ℕ)) (d : Store) {x : SessionRecord}
      → find_session r s d ≡ some x
      → (append_placeholders healthy r s os d).0 ≡ ok tt
  unfolding append_placeholders
  append_placeholders-ok [] d found = refl
  append_placeholders-ok ((k, n) ∷ os) d found =
      let e = tool_result (placeholder k) in
      rw (append_placeholders-cons k n os d found) (
        append_placeholders-ok os (append_event_at_step healthy r s n e d).1
          (append-found n e d ∙ found))

  repaired_results :
      (d : Store) {x : SessionRecord}
      → find_session r s d ≡ some x
      → (id : String)
      → let rows = order_rows (context d) in
        let rows' = order_rows (context (append_placeholders healthy r s (orphans rows) d).1) in
        (not (declared id rows') || has_result id rows') ≡ true
  unfolding declared has_result
  repaired_results d found id =
      let rows = order_rows (context d) in
      let d' = (append_placeholders healthy r s (orphans rows) d).1 in
      ground (
        arith,
        any-order_rows (λ y. calls id y.event) (context d),
        any-order_rows (λ y. is_result_for id y.event) (context d),
        any-order_rows (λ y. calls id y.event) (context d'),
        any-order_rows (λ y. is_result_for id y.event) (context d'),
        has_key-orphans id rows,
        declared-append_placeholders id (orphans rows) d found,
        results-append_placeholders id (orphans rows) d found,
      )

-- The rows that a read returned.
abbrev rows_of : Result (List EventRecord) → List EventRecord
rows_of (ok xs) = xs
rows_of (err _) = []

-- `repairOrphanToolCalls` on the context that a resumed session read: it succeeds on a store that
-- does not fail, and in the context read back after it each tool call of each assistant event has a
-- tool result.
pub calls_have_results :
    (r s : String) (d : Store) {x : SessionRecord} (rows rows' : List EventRecord)
    → find_session r s d ≡ some x
    → (get_events healthy r s current_context d).0 ≡ ok rows
    → (get_events healthy r s current_context (repair_orphan_tool_calls healthy r s rows d).1).0
      ≡ ok rows'
    → (id : String)
    → ((repair_orphan_tool_calls healthy r s rows d).0 ≡ ok tt)
      × ((not (declared id rows') || has_result id rows') ≡ true)
unfolding repair_orphan_tool_calls get_events
calls_have_results r s d rows rows' found read again id = (
  append_placeholders-ok r s (orphans rows) d found,
  rw (← ap rows_of again, ← ap rows_of read) (repaired_results r s d found id),
)

no_keys : (os : List (String × ℕ)) → ((id : String) → has_key id os ≡ false) → os ≡ []
unfolding has_key
no_keys [] h = refl
no_keys ((k, n) ∷ os) h = absurd (let e = h k in ground (arith, eq_iff k k))

repair-nil :
    (r s : String) (rows : List EventRecord) (d : Store)
    → orphans rows ≡ []
    → repair_orphan_tool_calls healthy r s rows d ≡ (ok tt, d)
unfolding repair_orphan_tool_calls append_placeholders
repair-nil r s rows d h = rw h

-- A process that dies after the repair repairs nothing twice: on a store that does not fail the
-- next repair succeeds and leaves the store alone.
pub repaired_once :
    (r s : String) (d : Store) {x : SessionRecord} (rows rows' : List EventRecord)
    → find_session r s d ≡ some x
    → (get_events healthy r s current_context d).0 ≡ ok rows
    → (get_events healthy r s current_context (repair_orphan_tool_calls healthy r s rows d).1).0
      ≡ ok rows'
    → repair_orphan_tool_calls healthy r s rows' (repair_orphan_tool_calls healthy r s rows d).1
      ≡ (ok tt, (repair_orphan_tool_calls healthy r s rows d).1)
repaired_once r s d rows rows' found read again =
    let d' = (repair_orphan_tool_calls healthy r s rows d).1 in
    let none_left : orphans rows' ≡ [] = no_keys (orphans rows') (λ id. ground (
      arith,
      has_key-orphans id rows',
      (calls_have_results r s d rows rows' found read again id).1,
    )) in
    repair-nil r s rows' d' none_left
