-- ===== src/Db/Generations.antt =====
-- The generations of rows over the writes of internal/db/sqlite/sqlite.go.
use mathlib.Core.Option
use amplio.Common.{
  All-map, ℕ, ◌+◌, String, true, ◌≡◌, inl, inr, refl, sym, ap, ◌∙◌, List, [], ◌∷◌, Option, none,
  some, arith, All, map, eq_iff, Bool-cases, Option-cases, ltb, ◌||◌, any,
}
use amplio.Event.{compaction}
use amplio.Db.Types.{SessionRecord, EventRecord}
use amplio.Db.State.{Store, Driver}
use amplio.Db.Rows.{find_row, find_session, update_rows, update_session, is_event_of, is_session}
use amplio.Db.Keys.{KeepsKey, find-update_self, find-update_ne, key-cases}
use amplio.Db.Sessions.{create_session}
use amplio.Db.Compact.{compact_context, carry, is_carried}
use amplio.Db.Calls.{
  Call, create, set_status, advance, mark_finalized, summarized, phased, append, append_at,
  finalize, compact, run_call, run_calls,
}
use amplio.Db.Reach.{
  Reached, RowReached, IsReached, Reached-append, IsReached-emit, IsReached-insert,
}
use amplio.Db.Written.{
  append-IsReached, append_at-IsReached, finalize-IsReached, set_status-IsReached,
  advance-IsReached, mark-IsReached, summarized-IsReached, phased-IsReached, terminate-IsReached,
}

All-mapped {ℓ κ μ} :
    {A : Type ℓ} (P : A → Type κ) (Q : A → Type μ) (f : A → A) (xs : List A)
    → ((x : A) → P x → Q (f x))
    → All P xs
    → All Q (map f xs)
All-mapped P Q f [] g all = tt
All-mapped P Q f (x ∷ xs) g all = (g x all.0, All-mapped P Q f xs g all.1)

abbrev generation_of : Option SessionRecord → ℕ
generation_of none = 0
generation_of (some x) = x.current_generation

module _ (r s : String) (l : List SessionRecord) {x : SessionRecord}
    (found : find_row r s l ≡ some x) where
  abbrev next : ℕ
  next = x.current_generation + 1

  abbrev bumped : List SessionRecord
  bumped = update_rows r s (λ y. record y { current_generation = next }) l

  next_key : KeepsKey (λ y. record y { current_generation = next })
  next_key = record { run = λ y. refl; session = λ y. refl }

  found-bumped : find_row r s bumped ≡ some (record x { current_generation = next })
  found-bumped = find-update_self next_key r s l ∙ ap (Option.map _) found

  Reached-next : Reached bumped r s next
  unfolding Reached
  Reached-next = (record x { current_generation = next }, found-bumped, omega arith)

  Reached-bumped : (r' s' : String) (n : ℕ) → Reached l r' s' n → Reached bumped r' s' n
  unfolding Reached
  Reached-bumped r' s' n (y, at, le) = elim (key-cases r s r' s') [
    | inr ne ↦ (y, find-update_ne next_key r s r' s' l ne ∙ at, le)
    | inl (p, q) ↦
        let at' : find_row r s l ≡ some y = rw (p, q) at in
        rw (← p, ← q)
          (
            record x { current_generation = next },
            found-bumped,
            omega (arith, le, ap generation_of (sym at' ∙ found)),
          )
  ]

  carried_key :
      (boundary : ℕ) (e : EventRecord)
      → is_carried r s x.current_generation boundary e ≡ true
      → (e.run_id ≡ r) × (e.session_id ≡ s)
  unfolding is_carried is_event_of
  carried_key boundary e h = ground (arith, eq_iff e.run_id r, eq_iff e.session_id s)

  carry-RowReached :
      (boundary : ℕ) (e : EventRecord)
      → RowReached l e
      → RowReached bumped (carry r s x.current_generation boundary e)
  unfolding carry Reached
  carry-RowReached boundary e h =
      elim (Bool-cases (is_carried r s x.current_generation boundary e)) [
        | inr stays ↦ rw stays (Reached-bumped e.run_id e.session_id e.generation h)
        | inl moves ↦
            let (p, q) = carried_key boundary e moves in
            rw (moves, p, q) (record x { current_generation = next }, found-bumped, omega arith)
      ]

module _ (v : Driver) where
  compact-IsReached :
      (r s : String) (boundary : ℕ) (summary : String) (d : Store)
      → IsReached d
      → IsReached (compact_context v r s boundary summary d).1
  unfolding compact_context update_session find_session IsReached
  compact-IsReached r s boundary summary d h = elim (Bool-cases (v r s d)) [
    | inl bad ↦ rw bad h
    | inr good ↦ elim (Option-cases (find_session r s d)) [
      | inl lost ↦ rw (good, lost) h
      | inr (x, found) ↦ elim (Bool-cases (ltb boundary 1 || ltb x.current_step boundary)) [
        | inl out ↦ rw (good, found, out) h
        | inr inside ↦
            rw (good, found, inside)
              (IsReached-emit _ _ (
                IsReached-insert r s boundary (x.current_generation + 1) (compaction summary) _
                  (Reached-next r s d.sessions found)
                  (All-mapped (RowReached d.sessions) (RowReached (bumped r s d.sessions found))
                    (carry r s x.current_generation boundary) d.events
                    (carry-RowReached r s d.sessions found boundary) h)))
      ]
    ]
  ]

  create-IsReached :
      (x : SessionRecord) (d : Store) → IsReached d → IsReached (create_session v x d).1
  unfolding create_session IsReached
  create-IsReached x d h = elim (Bool-cases (v x.run_id x.session_id d)) [
    | inl bad ↦ rw bad h
    | inr good ↦ elim (Bool-cases (any (is_session x.run_id x.session_id) d.sessions)) [
      | inl taken ↦ rw (good, taken) h
      | inr free ↦
          rw (good, free)
            (IsReached-emit _ _ (
              All-map (RowReached d.sessions) (RowReached _) d.events
                (λ e p. Reached-append d.sessions _ e.run_id e.session_id e.generation p) h))
    ]
  ]

  run_call-IsReached : (c : Call) (d : Store) → IsReached d → IsReached (run_call v c d).1
  unfolding run_call
  run_call-IsReached (create x) d h = create-IsReached x d h
  run_call-IsReached (set_status r s status) d h = set_status-IsReached v r s status d h
  run_call-IsReached (advance r s) d h = advance-IsReached v r s d h
  run_call-IsReached (mark_finalized r s n) d h = mark-IsReached v r s n d h
  run_call-IsReached (summarized r s n) d h = summarized-IsReached v r s n d h
  run_call-IsReached (phased r s n) d h = phased-IsReached v r s n d h
  run_call-IsReached (append r s e) d h = append-IsReached v r s e d h
  run_call-IsReached (append_at r s n e) d h = append_at-IsReached v r s n e d h
  run_call-IsReached (finalize r s n es) d h = finalize-IsReached v r s n es d h
  run_call-IsReached (compact r s n text) d h = compact-IsReached r s n text d h
  run_call-IsReached (Call.settle r s parent status content self step) d h =
      terminate-IsReached v r s parent status content self step d h

-- Every row of every stream belongs to a session that has a row and has reached the generation of
-- the event: no sequence of writes, whichever of them the database refuses, breaks that.
pub run_calls-IsReached :
    (v : Driver) (cs : List Call) (d : Store) → IsReached d → IsReached (run_calls v cs d)
unfolding run_calls
run_calls-IsReached v [] d h = h
run_calls-IsReached v (c ∷ cs) d h =
    run_calls-IsReached v cs (run_call v c d).1 (run_call-IsReached v c d h)
