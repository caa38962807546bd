-- ===== src/Session/Live.antt =====
-- The number of sessions that are not terminal, under the terminations of
-- internal/db/sqlite/sqlite.go.
use amplio.Common.{
  ℕ, ◌≤◌, ◌<◌, ◌≡◌, refl, ap, ◌∙◌, String, Bool, true, false, not, List, [], ◌∷◌, Option, none,
  some, arith, filter, length, Bool-cases, Option-cases, ◌⊎◌, inl, inr, str_eq,
}
use amplio.Event.{Event, Status}
use amplio.Db.Types.{SessionRecord, is_terminal}
use amplio.Db.State.{Store, Driver, Result, ok, err, Error, fire, insert_event}
use amplio.Db.Rows.{find_row, find_session, update_rows, update_session}
use amplio.Db.Frame.{sessions-emit}
use amplio.Db.Terminate.{
  terminate, insert_self, settle, announce, announce_to_parent, notify_parent,
}
use amplio.Db.Calls.{Call, run_call, failure}
use amplio.Db.Atomic.{failed_call_unchanged}
use amplio.Db.ExactlyOnce.{sessions-insert_self}

abbrev pub is_live : SessionRecord → Bool
is_live x = not (is_terminal x.status)

-- How many sessions are not terminal.
unfoldable pub live : List SessionRecord → ℕ
live xs = length (filter is_live xs)

pub Result-cases : (o : Result (Unit {0})) → (o ≡ ok tt) ⊎ ((e : Error) × (o ≡ err e))
Result-cases (ok tt) = inl refl
Result-cases (err e) = inr (e, refl)

abbrev pub finish : Status → ℕ → SessionRecord → SessionRecord
finish status now x = record x { status = status; status_changed_at = now }

live-update :
    (r s : String) (status : Status) (now : ℕ) (l : List SessionRecord)
    → is_terminal status ≡ true
    → live (update_rows r s (finish status now) l) ≤ live l
unfolding live update_rows
live-update r s status now [] t = omega arith
live-update r s status now (x ∷ l) t = ground (arith, live-update r s status now l t)

live-update_lt :
    (r s : String) (status : Status) (now : ℕ) (l : List SessionRecord) {x : SessionRecord}
    → is_terminal status ≡ true
    → find_row r s l ≡ some x
    → is_terminal x.status ≡ false
    → live (update_rows r s (finish status now) l) < live l
unfolding live update_rows find_row
live-update_lt r s status now [] t found alive = absurd (cc found)
live-update_lt r s status now (y ∷ l) {x} t found alive =
    ground (arith, live-update r s status now l t, live-update_lt r s status now l {x = x} t)

sessions-announce :
    (r s : String) (status : Status) (d : Store) → (announce r s status d).sessions ≡ d.sessions
unfolding announce fire
sessions-announce r s status d = rw sessions-emit

sessions-notify_parent :
    (r s parent : String) (status : Status) (content : String) (o : Option SessionRecord)
    (before d : Store)
    → (notify_parent r s parent status content o before d).0 ≡ ok tt
    → (notify_parent r s parent status content o before d).1.sessions ≡ d.sessions
unfolding notify_parent announce_to_parent fire insert_event
sessions-notify_parent r s parent status content none before d h = absurd (cc h)
sessions-notify_parent r s parent status content (some p) before d h =
    rw (sessions-emit, sessions-emit)

module _ (v : Driver) (r s parent : String) (status : Status) (content : String)
    (self : Option Event) (step : Option ℕ) (d : Store) where
  abbrev ended : Result (Unit {0}) × Store
  ended = terminate r s v parent status content self step d

  abbrev settled : SessionRecord → Store
  settled x = insert_self r s self step x (settle r s status d)

  sessions-settled :
      (x : SessionRecord)
      → (settled x).sessions ≡ update_rows r s (finish status d.clock) d.sessions
  unfolding settle update_session
  sessions-settled x = sessions-insert_self r s self step x (settle r s status d)

  -- A successful call on a live session makes it terminal.
  pub terminate-finish :
      {x : SessionRecord}
      → find_session r s d ≡ some x
      → is_terminal x.status ≡ false
      → ended.0 ≡ ok tt
      → ended.1.sessions ≡ update_rows r s (finish status d.clock) d.sessions
  unfolding terminate settle update_session
  terminate-finish {x} found alive done = elim (Bool-cases (v r s d)) [
    | inl bad ↦ absurd (cc (rw bad at done))
    | inr good ↦ elim (Bool-cases (str_eq parent "")) [
      | inl root ↦
          rw (good, found, alive, root)
            (sessions-announce r s status (settled x) ∙ sessions-settled x)
      | inr named ↦
          rw (good, found, alive, named)
            (sessions-notify_parent r s parent status content (find_session r parent (settled x)) d
                (settled x) (rw (good, found, alive, named) at done)
              ∙ sessions-settled x)
    ]
  ]

  -- A call that finds no live session leaves the rows alone.
  pub terminate-lost : find_session r s d ≡ none → ended.1 ≡ d
  unfolding terminate
  terminate-lost lost = ground (arith, lost)

  pub terminate-over :
      {x : SessionRecord} → find_session r s d ≡ some x → is_terminal x.status ≡ true → ended.1 ≡ d
  unfolding terminate
  terminate-over found over = ground (arith, found, over)

  pub live-terminate : is_terminal status ≡ true → live ended.1.sessions ≤ live d.sessions
  unfolding run_call find_session
  live-terminate final = elim (Result-cases ended.0) [
    | inr (e, failed) ↦
        rw
          (failed_call_unchanged v (Call.settle r s parent status content self step) d
            (ap failure failed))
          (omega arith)
    | inl done ↦ elim (Option-cases (find_session r s d)) [
      | inl lost ↦ rw (terminate-lost lost) (omega arith)
      | inr (x, found) ↦ elim (Bool-cases (is_terminal x.status)) [
        | inl over ↦ rw (terminate-over found over) (omega arith)
        | inr alive ↦
            rw (terminate-finish found alive done) (live-update r s status d.clock d.sessions final)
      ]
    ]
  ]

  pub terminate-live_lt :
      {x : SessionRecord}
      → is_terminal status ≡ true
      → find_session r s d ≡ some x
      → is_terminal x.status ≡ false
      → ended.0 ≡ ok tt
      → live ended.1.sessions < live d.sessions
  unfolding find_session
  terminate-live_lt final found alive done =
      rw (terminate-finish found alive done)
        (live-update_lt r s status d.clock d.sessions final found alive)
