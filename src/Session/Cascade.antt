-- ===== src/Session/Cascade.antt =====
-- The recursion of `CancelSession` of internal/session/registry.go.
use amplio.Common.{
  ℕ, zero, suc, ◌≤◌, ◌<◌, ◌≡◌, refl, String, Bool, true, false, List, [], ◌∷◌, Option, none, some,
  arith, any, Bool-cases, Option-cases, ◌⊎◌, ◌<>◌, inl, inr,
}
use amplio.Event.{cancelled, system, marker_cancelled}
use amplio.Db.Types.{SessionRecord, is_terminal}
use amplio.Db.State.{Store, Driver, Result, ok, err, driver_fault, no_rows, Error}
use amplio.Db.Rows.{find_session}
use amplio.Db.Sessions.{get_session, get_child_sessions}
use amplio.Db.Terminate.{terminate}
use amplio.Session.Registry.{Registry}
use amplio.Session.Cancel.{
  CancelError, store_error, out_of_fuel, Cancelled, listed, cancel_each, cascade, write_cancel,
  cancel_session,
}
use amplio.Common.{any-append}
use amplio.Session.Live.{live, Result-cases, live-terminate, terminate-live_lt}

abbrev pub is_out_of_fuel : CancelError → Bool
is_out_of_fuel out_of_fuel = true
is_out_of_fuel (store_error s e) = false

-- What a cancel of a child does: it makes no session live, and it does not run out of fuel where
-- fewer than `k` sessions are live.
record Cuts (one : String → Option Registry → Store → Cancelled) (k : ℕ) : Type 0 where
  less :
      (s : String) (reg : Option Registry) (d : Store)
      → live (one s reg d).db.sessions ≤ live d.sessions
  clean :
      (s : String) (reg : Option Registry) (d : Store)
      → live d.sessions < k
      → any is_out_of_fuel (one s reg d).errors ≡ false

listed-clean :
    (s : String) (o : Result (List SessionRecord)) → any is_out_of_fuel (listed s o).1 ≡ false
listed-clean s (ok xs) = refl
listed-clean s (err e) = refl

module _ (v : Driver) (one : String → Option Registry → Store → Cancelled) (k : ℕ)
    (c : Cuts one k) where
  cancel_each-Cuts :
      (xs : List SessionRecord) (reg : Option Registry) (d : Store)
      → (live (cancel_each one xs reg d).db.sessions ≤ live d.sessions)
        × (live d.sessions < k → any is_out_of_fuel (cancel_each one xs reg d).errors ≡ false)
  unfolding cancel_each
  cancel_each-Cuts [] reg d = (omega arith, λ h. refl)
  cancel_each-Cuts (x ∷ xs) reg d =
      let first = one x.session_id reg d in
      let rest = cancel_each-Cuts xs first.registry first.db in
      let drop = c.less x.session_id reg d in
      (
        omega (arith, rest.0, drop),
        λ h.
            rw
              (
                any-append is_out_of_fuel first.errors
                    (cancel_each one xs first.registry first.db).errors,
                c.clean x.session_id reg d h,
                rest.1 (omega (arith, drop, h)),
              )
              refl,
      )

  cascade-Cuts :
      (r s : String) (reg : Option Registry) (d : Store)
      → (live (cascade v one r s reg d).db.sessions ≤ live d.sessions)
        × (live d.sessions < k → any is_out_of_fuel (cascade v one r s reg d).errors ≡ false)
  unfolding cascade
  cascade-Cuts r s reg d =
      let o = (get_child_sessions v r s d).0 in
      let all = cancel_each-Cuts (listed s o).0 reg d in
      (
        all.0,
        λ h.
            rw
              (
                any-append is_out_of_fuel (listed s o).1
                    (cancel_each one (listed s o).0 reg d).errors,
                listed-clean s o,
                all.1 h,
              )
              refl,
      )

  write_cancel-Cuts :
      (r s parent reason : String) (reg : Option Registry) (d : Store) {x : SessionRecord}
      → find_session r s d ≡ some x
      → is_terminal x.status ≡ false
      → (live (write_cancel v one r s parent reason reg d).db.sessions ≤ live d.sessions)
        × (live d.sessions < suc k
            → any is_out_of_fuel (write_cancel v one r s parent reason reg d).errors ≡ false)
  unfolding write_cancel is_terminal
  write_cancel-Cuts r s parent reason reg d found alive =
      let marker = some (system reason marker_cancelled) in
      let less = live-terminate v r s parent cancelled reason marker none d refl in
      elim (Result-cases (terminate r s v parent cancelled reason marker none d).0) [
        | inr (e, failed) ↦ rw (write_cancel, failed) (less, λ h. refl)
        | inl done ↦
            let lt =
              terminate-live_lt v r s parent cancelled reason marker none d refl found alive done in
            let below =
              cascade-Cuts r s reg (terminate r s v parent cancelled reason marker none d).1 in
            rw (write_cancel, done)
              (omega (arith, below.0, less), λ h. below.1 (omega (arith, lt, h)))
      ]

pub get_session-cases :
    (v : Driver) (r s : String) (d : Store)
    → ((e : Error) × ((get_session v r s d).0 ≡ err e))
      ⊎ ((x : SessionRecord) × ((get_session v r s d).0 ≡ ok x) × (find_session r s d ≡ some x))
unfolding get_session
get_session-cases v r s d = elim (Bool-cases (v r s d)) [
  | inl bad ↦ inl (driver_fault, rw bad refl)
  | inr good ↦ elim (Option-cases (find_session r s d)) [
    | inl lost ↦ inl (no_rows, rw (good, lost) refl)
    | inr (x, found) ↦ inr (x, rw (good, found) refl, found)
  ]
]

abbrev cancel_at : Driver → ℕ → String → String → String → Option Registry → Store → Cancelled
cancel_at v k r reason child reg d = cancel_session v k r child reason reg d

cancel_step :
    (v : Driver) (k : ℕ) (r s reason : String) (reg : Option Registry) (d : Store)
    → ((child : String) → Cuts (cancel_at v k r child) k)
    → (live (cancel_session v (suc k) r s reason reg d).db.sessions ≤ live d.sessions)
      × (live d.sessions < suc k
          → any is_out_of_fuel (cancel_session v (suc k) r s reason reg d).errors ≡ false)
unfolding cancel_session
cancel_step v k r s reason reg d c = elim (get_session-cases v r s d) [
  | inl (e, failed) ↦ rw (cancel_session, failed) (omega arith, λ h. refl)
  | inr (x, read, found) ↦ elim (Bool-cases (is_terminal x.status)) [
    | inl over ↦ rw (cancel_session, read, over) (omega arith, λ h. refl)
    | inr alive ↦
        rw (cancel_session, read, alive)
          (write_cancel-Cuts v
            (λ child. cancel_session v k r child ("parent " <> s <> " cancelled")) k
            (c ("parent " <> s <> " cancelled")) r s x.parent_id reason reg d found alive)
  ]
]

cancel_session-Cuts : (v : Driver) (k : ℕ) (r reason : String) → Cuts (cancel_at v k r reason) k
unfolding cancel_session
cancel_session-Cuts v zero r reason = record {
  less = λ s reg d. omega arith;
  clean = λ s reg d h. absurd (omega (arith, h));
}
cancel_session-Cuts v (suc k) r reason = record {
  less = λ s reg d. (cancel_step v k r s reason reg d (cancel_session-Cuts v k r)).0;
  clean = λ s reg d. (cancel_step v k r s reason reg d (cancel_session-Cuts v k r)).1;
}

-- The cancel of a session with more fuel than there are live sessions does not run out of fuel, and
-- leaves no more live sessions than there were, however its children refer to each other and
-- whichever sessions the database refuses to read and write.
pub cancel_ends :
    (v : Driver) (k : ℕ) (r s reason : String) (reg : Option Registry) (d : Store)
    → live d.sessions < k
    → (any is_out_of_fuel (cancel_session v k r s reason reg d).errors ≡ false)
      × (live (cancel_session v k r s reason reg d).db.sessions ≤ live d.sessions)
cancel_ends v k r s reason reg d h =
    let c = cancel_session-Cuts v k r reason in (c.clean s reg d h, c.less s reg d)
