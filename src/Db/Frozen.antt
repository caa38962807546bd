-- ===== src/Db/Frozen.antt =====
-- The frozen window over whole sequences of calls.
use mathlib.Core.Option
use amplio.Common.{
  ℕ, ◌+◌, ◌-◌, ◌<◌, String, ◌≡◌, refl, ap, ◌∙◌, inl, inr, List, [], ◌∷◌, some, arith, All,
  Option-cases, Bool-cases,
}
use amplio.Db.Types.{SessionRecord, EventFilter}
use amplio.Db.State.{Store, Driver, ok}
use amplio.Db.Rows.{find_session, update_session}
use amplio.Db.Keys.{find-update_self}
use amplio.Db.Frame.{sessions-emit}
use amplio.Db.Window.{IsPast, Same, Same-refl, Same-trans, matching-IsPast}
use amplio.Db.Sessions.{advance_step}
use amplio.Db.Events.{matching, get_events}
use amplio.Db.Arrivals.{
  Arrives, append-Same, append_at-Same, set_status-Same, advance-Same, mark-Same, summarized-Same,
  phased-Same, terminate-Same,
}
use amplio.Db.Others.{create-Same, finalize-Same, compact-Same}
use amplio.Db.Calls.{
  Call, set_status, advance, mark_finalized, summarized, phased, append, append_at, create,
  finalize, compact, run_call, run_calls, healthy,
}

module _ (v : Driver) (r s : String) (f : EventFilter) (hi gen : ℕ)
    (end : f.end_step ≡ some hi) where
  run_call-Same :
      (c : Call) (d : Store)
      → Arrives r s c
      → IsPast hi gen (find_session r s d)
      → Same r s f hi gen d (run_call v c d).1
  unfolding run_call
  run_call-Same (create x) d w p = create-Same v r s f hi gen end x d p
  run_call-Same (set_status r' s' status) d w p =
      set_status-Same v r s f hi gen end r' s' status d p
  run_call-Same (advance r' s') d w p = advance-Same v r s f hi gen end r' s' d p
  run_call-Same (mark_finalized r' s' n) d w p = mark-Same v r s f hi gen end r' s' n d p
  run_call-Same (summarized r' s' n) d w p = summarized-Same v r s f hi gen end r' s' n d p
  run_call-Same (phased r' s' n) d w p = phased-Same v r s f hi gen end r' s' n d p
  run_call-Same (append r' s' e) d w p = append-Same v r s f hi gen end r' s' e d p
  run_call-Same (append_at r' s' n e) d w p = append_at-Same v r s f hi gen end r' s' n e d w p
  run_call-Same (finalize r' s' n es) d w p = finalize-Same v r s f hi gen end r' s' n es d w p
  run_call-Same (compact r' s' n t) d w p = compact-Same v r s f hi gen end r' s' n t d w p
  run_call-Same (Call.settle r' s' parent status content self step) d w p =
      terminate-Same v r s f hi gen end r' s' parent status content self step d w p

  run_calls-Same :
      (cs : List Call) (d : Store)
      → All (Arrives r s) cs
      → IsPast hi gen (find_session r s d)
      → Same r s f hi gen d (run_calls v cs d)
  unfolding run_calls
  run_calls-Same [] d w p = Same-refl r s f hi gen end d p
  run_calls-Same (c ∷ cs) d w p =
      let one = run_call-Same c d w.0 p in
      Same-trans r s f hi gen end one (run_calls-Same cs (run_call v c d).1 w.1 one.past)

  matching-run_calls :
      (cs : List Call) (d : Store)
      → All (Arrives r s) cs
      → IsPast hi gen (find_session r s d)
      → matching r s f (run_calls v cs d) ≡ matching r s f d
  matching-run_calls cs d w p =
      let h = run_calls-Same cs d w p in
      rw (matching-IsPast r s f (run_calls v cs d) h.past, matching-IsPast r s f d p) h.rows

abbrev bump : SessionRecord → SessionRecord
bump y = record y { current_step = y.current_step + 1 }

-- After the bump the session is past its call step.
advance-IsPast :
    (v : Driver) (r s : String) (d : Store) (n : ℕ)
    → (advance_step v r s d).0 ≡ ok n
    → (x : SessionRecord) × (find_session r s (advance_step v r s d).1 ≡ some x)
      × (n - 1 < x.current_step)
      × (x.current_generation ≡ x.current_generation)
unfolding advance_step find_session update_session
advance-IsPast v r s d n h = elim (Bool-cases (v r s d)) [
  | inl bad ↦ absurd (cc (rw bad at h))
  | inr good ↦ elim (Option-cases (find_session r s d)) [
    | inl lost ↦ absurd (cc (rw (good, lost) at h))
    | inr (x, found) ↦
        rw (good, found)
          (
            record x { current_step = x.current_step + 1 },
            rw sessions-emit (
                find-update_self (record { run = λ y. refl; session = λ y. refl }) r s d.sessions
                ∙ ap (Option.map bump) found),
            (let e = rw (good, found) at h in ground arith),
            refl,
          )
  ]
]

-- Once `AdvanceStep` has returned `n`, the context that the turn reads, up to its call step `n - 1`,
-- is the same after any sequence of the store's writes on sessions and events, whichever of them the
-- database refuses, without those that the turn itself makes at a given step: appends to any session
-- at its current step, status changes, steps and cursors, terminations (of the session itself,
-- without an own event at a given step), the creation of sessions, and the turns, finalized steps and
-- compactions of other sessions.
pub window_frozen :
    (v : Driver) (r s : String) (d : Store) (n : ℕ) (f : EventFilter) (cs : List Call)
    → (advance_step v r s d).0 ≡ ok n
    → f.end_step ≡ some (n - 1)
    → All (Arrives r s) cs
    → (get_events healthy r s f (run_calls v cs (advance_step v r s d).1)).0
      ≡ (get_events healthy r s f (advance_step v r s d).1).0
unfolding get_events
window_frozen v r s d n f cs h end w =
    let (x, found, past, _) = advance-IsPast v r s d n h in
    rw (matching-run_calls v r s f (n - 1) x.current_generation end cs _ w (x, found, past, refl))
