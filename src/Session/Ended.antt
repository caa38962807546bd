-- ===== src/Session/Ended.antt =====
-- The sessions that `CancelSession` of internal/session/registry.go leaves terminal.
use mathlib.Core.Option
use amplio.Common.{
  ℕ, zero, suc, ◌≡◌, refl, ap, ◌∙◌, String, ◌<>◌, true, false, List, [], ◌∷◌, ◌++◌, Option, none,
  some, arith, All, inl, inr, Bool-cases, Option-cases,
}
use amplio.Event.{Event, Status, cancelled, system, marker_cancelled}
use amplio.Db.Types.{SessionRecord, is_terminal}
use amplio.Db.State.{Store, Driver, Result, ok}
use amplio.Db.Rows.{find_session, update_rows}
use amplio.Db.Keys.{find-update_self, find-update_ne, key-cases}
use amplio.Db.Frame.{status-KeepsKey}
use amplio.Db.Calls.{Call, run_call, failure}
use amplio.Db.Atomic.{failed_call_unchanged}
use amplio.Db.Sessions.{get_session, get_child_sessions}
use amplio.Db.Terminate.{terminate}
use amplio.Session.Registry.{Registry}
use amplio.Session.Cancel.{Cancelled, listed, cancel_each, cascade, write_cancel, cancel_session}
use amplio.Session.Live.{Result-cases, finish, terminate-finish, terminate-lost, terminate-over}
use amplio.Session.Cascade.{get_session-cases}

-- The session has a row, with a terminal status.
unfoldable pub IsEnded : String → String → Store → Type 0
IsEnded r s d = (x : SessionRecord) × (find_session r s d ≡ some x) × (is_terminal x.status ≡ true)

finished-IsEnded :
    (r s : String) (status : Status) (now : ℕ) (a b : Store) {x : SessionRecord}
    → is_terminal status ≡ true
    → b.sessions ≡ update_rows r s (finish status now) a.sessions
    → find_session r s a ≡ some x
    → IsEnded r s b
unfolding IsEnded find_session
finished-IsEnded r s status now a b {x} final rows found = (
  finish status now x,
  rw rows (find-update_self (status-KeepsKey status now) r s a.sessions ∙ ap (Option.map _) found),
  final,
)

kept-IsEnded :
    (r s r' s' : String) (status : Status) (now : ℕ) (a b : Store)
    → is_terminal status ≡ true
    → b.sessions ≡ update_rows r s (finish status now) a.sessions
    → IsEnded r' s' a
    → IsEnded r' s' b
unfolding IsEnded find_session
kept-IsEnded r s r' s' status now a b final rows (x, found, over) = elim (key-cases r s r' s') [
  | inr ne ↦ (
    x,
    rw rows (find-update_ne (status-KeepsKey status now) r s r' s' a.sessions ne ∙ found),
    over,
  )
  | inl (p, q) ↦
      rw (← p, ← q) (finished-IsEnded r s status now a b {x = x} final rows (rw (p, q) found))
]

module _ (v : Driver) (r s parent : String) (status : Status) (content : String)
    (self : Option Event) (step : Option ℕ) (d : Store) (final : is_terminal status ≡ true) where
  abbrev ended : Result (Unit {0}) × Store
  ended = terminate r s v parent status content self step d

  terminate-keeps : (r' s' : String) → IsEnded r' s' d → IsEnded r' s' ended.1
  unfolding run_call
  terminate-keeps r' s' h = elim (Result-cases ended.0) [
    | inr (e, failed) ↦
        rw
          (failed_call_unchanged v (Call.settle r s parent status content self step) d
            (ap failure failed))
          h
    | inl done ↦ elim (Option-cases (find_session r s d)) [
      | inl lost ↦ rw (terminate-lost v r s parent status content self step d lost) h
      | inr (x, found) ↦ elim (Bool-cases (is_terminal x.status)) [
        | inl over ↦ rw (terminate-over v r s parent status content self step d found over) h
        | inr alive ↦
            kept-IsEnded r s r' s' status d.clock d ended.1 final
              (terminate-finish v r s parent status content self step d found alive done) h
      ]
    ]
  ]

  terminate-ends :
      {x : SessionRecord}
      → find_session r s d ≡ some x
      → is_terminal x.status ≡ false
      → ended.0 ≡ ok tt
      → IsEnded r s ended.1
  terminate-ends found alive done =
      finished-IsEnded r s status d.clock d ended.1 final
        (terminate-finish v r s parent status content self step d found alive done) found

nil-append {ℓ} : {A : Type ℓ} (xs ys : List A) → xs ++ ys ≡ [] → (xs ≡ []) × (ys ≡ [])
nil-append [] ys h = (refl, h)
nil-append (x ∷ xs) ys h = absurd (cc h)

-- A cancel of a session of the run `r`: it reopens no session, and without errors it ends its own.
record Ends (r : String) (one : String → Option Registry → Store → Cancelled) : Type 0 where
  keeps :
      (s : String) (reg : Option Registry) (d : Store) (r' s' : String)
      → IsEnded r' s' d
      → IsEnded r' s' (one s reg d).db
  ends :
      (s : String) (reg : Option Registry) (d : Store)
      → (one s reg d).errors ≡ []
      → IsEnded r s (one s reg d).db

module _ (v : Driver) (r : String) (one : String → Option Registry → Store → Cancelled)
    (c : Ends r one) where
  each-keeps :
      (xs : List SessionRecord) (reg : Option Registry) (d : Store) (r' s' : String)
      → IsEnded r' s' d
      → IsEnded r' s' (cancel_each one xs reg d).db
  unfolding cancel_each
  each-keeps [] reg d r' s' h = h
  each-keeps (x ∷ xs) reg d r' s' h =
      let first = one x.session_id reg d in
      each-keeps xs first.registry first.db r' s' (c.keeps x.session_id reg d r' s' h)

  each-ends :
      (xs : List SessionRecord) (reg : Option Registry) (d : Store)
      → (cancel_each one xs reg d).errors ≡ []
      → All (λ (x : SessionRecord). IsEnded r x.session_id (cancel_each one xs reg d).db) xs
  unfolding cancel_each
  each-ends [] reg d h = tt
  each-ends (x ∷ xs) reg d h =
      let first = one x.session_id reg d in
      let parts = nil-append first.errors (cancel_each one xs first.registry first.db).errors h in
      (
        each-keeps xs first.registry first.db r x.session_id (c.ends x.session_id reg d parts.0),
        each-ends xs first.registry first.db parts.1,
      )

  cascade-keeps :
      (s : String) (reg : Option Registry) (d : Store) (r' s' : String)
      → IsEnded r' s' d
      → IsEnded r' s' (cascade v one r s reg d).db
  unfolding cascade
  cascade-keeps s reg d r' s' h =
      each-keeps (listed s (get_child_sessions v r s d).0).0 reg d r' s' h

  cascade-ends :
      (s : String) (reg : Option Registry) (d : Store)
      → (cascade v one r s reg d).errors ≡ []
      → All
          (λ (x : SessionRecord). IsEnded r x.session_id (cascade v one r s reg d).db)
          (listed s (get_child_sessions v r s d).0).0
  unfolding cascade
  cascade-ends s reg d h =
      let o = (get_child_sessions v r s d).0 in
      each-ends (listed s o).0 reg d
        (nil-append (listed s o).1 (cancel_each one (listed s o).0 reg d).errors h).1

  abbrev marker : String → Option Event
  marker reason = some (system reason marker_cancelled)

  abbrev first_write : String → String → String → Store → Result (Unit {0}) × Store
  first_write s parent reason d = terminate r s v parent cancelled reason (marker reason) none d

  write-keeps :
      (s parent reason : String) (reg : Option Registry) (d : Store) (r' s' : String)
      → IsEnded r' s' d
      → IsEnded r' s' (write_cancel v one r s parent reason reg d).db
  unfolding write_cancel is_terminal
  write-keeps s parent reason reg d r' s' h =
      let kept =
        terminate-keeps v r s parent cancelled reason (marker reason) none d refl r' s' h in
      elim (Result-cases (first_write s parent reason d).0) [
        | inr (e, failed) ↦ rw (write_cancel, failed) kept
        | inl done ↦
            rw (write_cancel, done)
              (cascade-keeps s reg (first_write s parent reason d).1 r' s' kept)
      ]

  write-ends :
      (s parent reason : String) (reg : Option Registry) (d : Store) {x : SessionRecord}
      → find_session r s d ≡ some x
      → is_terminal x.status ≡ false
      → (write_cancel v one r s parent reason reg d).errors ≡ []
      → IsEnded r s (write_cancel v one r s parent reason reg d).db
        × All
            (λ (y : SessionRecord).
              IsEnded r y.session_id (write_cancel v one r s parent reason reg d).db)
            (listed s (get_child_sessions v r s (first_write s parent reason d).1).0).0
  unfolding write_cancel is_terminal
  write-ends s parent reason reg d found alive clean =
      elim (Result-cases (first_write s parent reason d).0) [
        | inr (e, failed) ↦ absurd (cc (rw (write_cancel, failed) at clean))
        | inl done ↦
            let d' = (first_write s parent reason d).1 in
            let over =
              terminate-ends v r s parent cancelled reason (marker reason) none d refl found alive
                done in
            rw (write_cancel, done)
              (
                cascade-keeps s reg d' r s over,
                cascade-ends s reg d' (rw (write_cancel, done) at clean),
              )
      ]

abbrev cancel_at : Driver → ℕ → String → String → String → Option Registry → Store → Cancelled
cancel_at v k r reason s reg d = cancel_session v k r s reason reg d

abbrev below : String → String
below s = "parent " <> s <> " cancelled"

module _ (v : Driver) (k : ℕ) (r s reason : String) (reg : Option Registry) (d : Store)
    (c : Ends r (cancel_at v k r (below s))) where
  abbrev result : Cancelled
  result = cancel_session v (suc k) r s reason reg d

  level-keeps : (r' s' : String) → IsEnded r' s' d → IsEnded r' s' result.db
  unfolding cancel_session
  level-keeps r' s' h = elim (get_session-cases v r s d) [
    | inl (e, failed) ↦ rw (cancel_session, failed) h
    | inr (x, read, found) ↦ elim (Bool-cases (is_terminal x.status)) [
      | inl over ↦ rw (cancel_session, read, over) h
      | inr alive ↦
          rw (cancel_session, read, alive)
            (write-keeps v r (cancel_at v k r (below s)) c s x.parent_id reason reg d r' s' h)
    ]
  ]

  level-ends : result.errors ≡ [] → IsEnded r s result.db
  unfolding cancel_session IsEnded
  level-ends clean = elim (get_session-cases v r s d) [
    | inl (e, failed) ↦ absurd (cc (rw (cancel_session, failed) at clean))
    | inr (x, read, found) ↦ elim (Bool-cases (is_terminal x.status)) [
      | inl over ↦ rw (cancel_session, read, over) (x, found, over)
      | inr alive ↦
          rw (cancel_session, read, alive)
            (write-ends v r (cancel_at v k r (below s)) c s x.parent_id reason reg d found alive
              (rw (cancel_session, read, alive) at clean)).0
    ]
  ]

cancel-Ends : (v : Driver) (k : ℕ) (r reason : String) → Ends r (cancel_at v k r reason)
unfolding cancel_session
cancel-Ends v zero r reason = record {
  keeps = λ s reg d r' s' h. h;
  ends = λ s reg d h. absurd (cc h);
}
cancel-Ends v (suc k) r reason = record {
  keeps = λ s reg d. level-keeps v k r s reason reg d (cancel-Ends v k r (below s));
  ends = λ s reg d. level-ends v k r s reason reg d (cancel-Ends v k r (below s));
}

get_session-found :
    (v : Driver) (r s : String) (d : Store) {x : SessionRecord}
    → (get_session v r s d).0 ≡ ok x
    → find_session r s d ≡ some x
unfolding get_session
get_session-found v r s d read = ground arith

-- A cancel of a live session that reports no error leaves terminal the session and each child that
-- the store lists for it once its own termination is written, whatever the database refuses.
pub cancel_covers_children :
    (v : Driver) (k : ℕ) (r s reason : String) (reg : Option Registry) (d : Store)
    {x : SessionRecord}
    → (get_session v r s d).0 ≡ ok x
    → is_terminal x.status ≡ false
    → (cancel_session v (suc k) r s reason reg d).errors ≡ []
    → IsEnded r s (cancel_session v (suc k) r s reason reg d).db
      × All
          (λ (y : SessionRecord).
            IsEnded r y.session_id (cancel_session v (suc k) r s reason reg d).db)
          (listed s
            (get_child_sessions v r s
              (terminate r s v x.parent_id cancelled reason
                (some (system reason marker_cancelled))
                none
                d).1).0).0
unfolding cancel_session
cancel_covers_children v k r s reason reg d {x} read alive clean =
    let c = cancel-Ends v k r (below s) in
    let w =
      write-ends v r (cancel_at v k r (below s)) c s x.parent_id reason reg d
        (get_session-found v r s d read) alive (rw (cancel_session, read, alive) at clean) in
    (level-ends v k r s reason reg d c clean, rw (cancel_session, read, alive) w.1)
