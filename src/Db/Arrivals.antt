-- ===== src/Db/Arrivals.antt =====
-- The calls that may arrive while a turn is in flight (docs/internals/step_model.md), one by one:
-- the writes of internal/db/sqlite/sqlite.go against the window of a session.
use amplio.Common.{
  ℕ, ◌+◌, ◌<◌, String, ◌≡◌, ◌≢◌, ◌⊎◌, inl, inr, refl, Option, none, some, arith, Option-cases,
  Bool-cases, str_eq, max,
}
use amplio.Event.{Event, Status, child_result}
use amplio.Db.Types.{SessionRecord, EventFilter, is_terminal}
use amplio.Db.State.{Store, StoreEvent, Fired, Driver, emit, fire, insert_event}
use amplio.Db.Rows.{find_session, update_session}
use amplio.Db.Frame.{status-KeepsKey}
use amplio.Db.Window.{
  IsPast, Advances, Same, Same-refl, Same-fire, Same-emit, Same-update, Same-insert, current_late,
}
use amplio.Db.Sessions.{
  update_session_status, advance_step, mark_step_finalized, set_last_summarized_step,
  set_last_phased_step,
}
use amplio.Db.Events.{append_event, append_event_at_step}
use amplio.Db.Terminate.{terminate, insert_self, settle, announce_to_parent, notify_parent}
use amplio.Db.Calls.{
  Call, create, set_status, advance, mark_finalized, summarized, phased, append, append_at,
  finalize, compact,
}

abbrev pub Differs : String → String → String → String → Type 0
Differs r' s' r s = (r' ≢ r) ⊎ (s' ≢ s)

abbrev pub Late : String → String → String → String → ℕ → ℕ → Type 0
Late r' s' r s hi n = (r' ≢ r) ⊎ (s' ≢ s) ⊎ (hi < n)

pub Late-of_Differs : {r' s' r s : String} {hi n : ℕ} → Differs r' s' r s → Late r' s' r s hi n
Late-of_Differs (inl ne) = inl ne
Late-of_Differs (inr ne) = inr (inl ne)

-- Events for any session, status changes, step and cursor moves, terminations, the creation of
-- sessions, and the turns and compactions of other sessions. Not the session's own turn: its events
-- at a given step, its compaction.
abbrev pub Arrives : String → String → Call → Type 0
Arrives r s (set_status r' s' status) = Unit
Arrives r s (advance r' s') = Unit
Arrives r s (mark_finalized r' s' n) = Unit
Arrives r s (summarized r' s' n) = Unit
Arrives r s (phased r' s' n) = Unit
Arrives r s (append r' s' e) = Unit
Arrives r s (append_at r' s' n e) = Differs r' s' r s
Arrives r s (Call.settle r' s' parent status content self step) = (step ≡ none) ⊎ Differs r' s' r s
Arrives r s (create x) = Unit
Arrives r s (finalize r' s' n es) = Differs r' s' r s
Arrives r s (compact r' s' n text) = Differs r' s' r s

Advances-status :
    (status : Status) (now : ℕ)
    → Advances (λ x. record x { status = status; status_changed_at = now })
Advances-status status now = record {
  key = status-KeepsKey status now;
  generation = λ y. refl;
  step = λ y. omega arith;
}

Advances-step : Advances (λ y. record y { current_step = y.current_step + 1 })
Advances-step = record {
  key = record { run = λ x. refl; session = λ x. refl };
  generation = λ y. refl;
  step = λ y. omega arith;
}

pub Advances-finalized :
    (n : ℕ) → Advances (λ x. record x { last_finalized_step = max x.last_finalized_step n })
Advances-finalized n = record {
  key = record { run = λ x. refl; session = λ x. refl };
  generation = λ y. refl;
  step = λ y. omega arith;
}

Advances-summarized :
    (n : ℕ) → Advances (λ x. record x { last_summarized_step = max x.last_summarized_step n })
Advances-summarized n = record {
  key = record { run = λ x. refl; session = λ x. refl };
  generation = λ y. refl;
  step = λ y. omega arith;
}

Advances-phased : (n : ℕ) → Advances (λ x. record x { last_phased_step = max x.last_phased_step n })
Advances-phased n = record {
  key = record { run = λ x. refl; session = λ x. refl };
  generation = λ y. refl;
  step = λ y. omega arith;
}

module _ (v : Driver) (r s : String) (f : EventFilter) (hi gen : ℕ)
    (end : f.end_step ≡ some hi) where
  abbrev pub Still : Store → Store → Type 0
  Still d d' = Same r s f hi gen d d'

  -- One more row, the channel and the listener.
  posted :
      (a b : Store) (r' s' : String) (n g : ℕ) (e : Event) (q : StoreEvent) (w : Fired)
      → Late r' s' r s hi n
      → Still a b
      → Still a (fire w (emit q (insert_event r' s' n g e b)))
  posted a b r' s' n g e q w late h =
      Same-fire r s f hi gen end _ _ w
        (Same-emit r s f hi gen end _ _ q (Same-insert r s f hi gen end r' s' n g e a b late h))

  pub append-Same :
      (r' s' : String) (e : Event) (d : Store)
      → IsPast hi gen (find_session r s d)
      → Still d (append_event v r' s' e d).1
  unfolding append_event
  append-Same r' s' e d p = elim (Bool-cases (v r' s' d)) [
    | inl bad ↦ rw bad (Same-refl r s f hi gen end d p)
    | inr good ↦ elim (Option-cases (find_session r' s' d)) [
      | inl lost ↦ rw (good, lost) (Same-refl r s f hi gen end d p)
      | inr (x, found) ↦
          rw (good, found)
            (posted d d r' s' x.current_step x.current_generation e _ _
              (current_late r s f hi gen end r' s' d x p found) (Same-refl r s f hi gen end d p))
    ]
  ]

  pub append_at-Same :
      (r' s' : String) (n : ℕ) (e : Event) (d : Store)
      → Differs r' s' r s
      → IsPast hi gen (find_session r s d)
      → Still d (append_event_at_step v r' s' n e d).1
  unfolding append_event_at_step
  append_at-Same r' s' n e d ne p = elim (Bool-cases (v r' s' d)) [
    | inl bad ↦ rw bad (Same-refl r s f hi gen end d p)
    | inr good ↦ elim (Option-cases (find_session r' s' d)) [
      | inl lost ↦ rw (good, lost) (Same-refl r s f hi gen end d p)
      | inr (x, found) ↦
          rw (good, found)
            (posted d d r' s' n x.current_generation e _ _ (Late-of_Differs ne)
              (Same-refl r s f hi gen end d p))
    ]
  ]

  -- The operations that only update a row.
  pub set_status-Same :
      (r' s' : String) (status : Status) (d : Store)
      → IsPast hi gen (find_session r s d)
      → Still d (update_session_status v r' s' status d).1
  unfolding update_session_status
  set_status-Same r' s' status d p = elim (Bool-cases (v r' s' d)) [
    | inl bad ↦ rw bad (Same-refl r s f hi gen end d p)
    | inr good ↦ rw good (
        Same-fire r s f hi gen end _ _ _ (
          Same-emit r s f hi gen end _ _ _ (
            Same-update r s f hi gen end r' s' d d (Advances-status status d.clock)
              (Same-refl r s f hi gen end d p))))
  ]

  pub advance-Same :
      (r' s' : String) (d : Store)
      → IsPast hi gen (find_session r s d)
      → Still d (advance_step v r' s' d).1
  unfolding advance_step
  advance-Same r' s' d p = elim (Bool-cases (v r' s' d)) [
    | inl bad ↦ rw bad (Same-refl r s f hi gen end d p)
    | inr good ↦ elim (Option-cases (find_session r' s' d)) [
      | inl lost ↦ rw (good, lost) (Same-refl r s f hi gen end d p)
      | inr (x, found) ↦
          rw (good, found)
            (Same-emit r s f hi gen end _ _ _ (
              Same-update r s f hi gen end r' s' d d Advances-step
                (Same-refl r s f hi gen end d p)))
    ]
  ]

  cursor-Same :
      (r' s' : String) {g : SessionRecord → SessionRecord} (d : Store)
      → Advances g
      → IsPast hi gen (find_session r s d)
      → Still d (update_session r' s' g d)
  cursor-Same r' s' d a p =
      Same-update r s f hi gen end r' s' d d a (Same-refl r s f hi gen end d p)

  pub mark-Same :
      (r' s' : String) (n : ℕ) (d : Store)
      → IsPast hi gen (find_session r s d)
      → Still d (mark_step_finalized v r' s' n d).1
  unfolding mark_step_finalized
  mark-Same r' s' n d p = elim (Bool-cases (v r' s' d)) [
    | inl bad ↦ rw bad (Same-refl r s f hi gen end d p)
    | inr good ↦
        rw good (Same-fire r s f hi gen end _ _ _ (cursor-Same r' s' d (Advances-finalized n) p))
  ]

  pub summarized-Same :
      (r' s' : String) (n : ℕ) (d : Store)
      → IsPast hi gen (find_session r s d)
      → Still d (set_last_summarized_step v r' s' n d).1
  unfolding set_last_summarized_step
  summarized-Same r' s' n d p = elim (Bool-cases (v r' s' d)) [
    | inl bad ↦ rw bad (Same-refl r s f hi gen end d p)
    | inr good ↦ rw good (cursor-Same r' s' d (Advances-summarized n) p)
  ]

  pub phased-Same :
      (r' s' : String) (n : ℕ) (d : Store)
      → IsPast hi gen (find_session r s d)
      → Still d (set_last_phased_step v r' s' n d).1
  unfolding set_last_phased_step
  phased-Same r' s' n d p = elim (Bool-cases (v r' s' d)) [
    | inl bad ↦ rw bad (Same-refl r s f hi gen end d p)
    | inr good ↦ rw good (cursor-Same r' s' d (Advances-phased n) p)
  ]

  self-Same :
      (r' s' : String) (self : Option Event) (step : Option ℕ) (a b : Store) (x : SessionRecord)
      → (step ≡ none) ⊎ Differs r' s' r s
      → Late r' s' r s hi x.current_step
      → Still a b
      → Still a (insert_self r' s' self step x b)
  unfolding insert_self
  self-Same r' s' none step a b x w late h = h
  self-Same r' s' (some e) none a b x w late h =
      Same-insert r s f hi gen end r' s' x.current_step x.current_generation e a b late h
  self-Same r' s' (some e) (some n) a b x (inl bad) late h = cc
  self-Same r' s' (some e) (some n) a b x (inr ne) late h =
      Same-insert r s f hi gen end r' s' n x.current_generation e a b (Late-of_Differs ne) h

  notify-Same :
      (r' s' parent : String) (status : Status) (content : String) (o : Option SessionRecord)
      (d b : Store)
      → find_session r' parent b ≡ o
      → IsPast hi gen (find_session r s d)
      → Still d b
      → Still d (notify_parent r' s' parent status content o d b).1
  unfolding notify_parent announce_to_parent
  notify-Same r' s' parent status content none d b known p h = Same-refl r s f hi gen end d p
  notify-Same r' s' parent status content (some q) d b known p h =
      Same-fire r s f hi gen end _ _ _ (
        Same-fire r s f hi gen end _ _ _ (
          Same-emit r s f hi gen end _ _ _ (
            Same-emit r s f hi gen end _ _ _ (
              Same-insert r s f hi gen end r' parent q.current_step q.current_generation
                (child_result content s' status) d b
                (current_late r s f hi gen end r' parent b q h.past known) h))))

  pub terminate-Same :
      (r' s' parent : String) (status : Status) (content : String) (self : Option Event)
      (step : Option ℕ) (d : Store)
      → (step ≡ none) ⊎ Differs r' s' r s
      → IsPast hi gen (find_session r s d)
      → Still d (terminate r' s' v parent status content self step d).1
  unfolding terminate
  terminate-Same r' s' parent status content self step d w p = elim (Bool-cases (v r' s' d)) [
    | inl bad ↦ rw bad (Same-refl r s f hi gen end d p)
    | inr good ↦ elim (Option-cases (find_session r' s' d)) [
      | inl lost ↦ rw (good, lost) (Same-refl r s f hi gen end d p)
      | inr (x, found) ↦ elim (Bool-cases (is_terminal x.status)) [
        | inl done ↦ rw (good, found, done) (Same-refl r s f hi gen end d p)
        | inr live ↦
            let late = current_late r s f hi gen end r' s' d x p found in
            let h =
              self-Same r' s' self step d (settle r' s' status d) x w late
                (unfold settle in cursor-Same r' s' d (Advances-status status d.clock) p) in
            elim (Bool-cases (str_eq parent "")) [
              | inl root ↦
                  rw (good, found, live, root)
                    (Same-fire r s f hi gen end _ _ _ (Same-emit r s f hi gen end _ _ _ h))
              | inr child ↦
                  rw (good, found, live, child)
                    (notify-Same r' s' parent status content _ d _ refl p h)
            ]
      ]
    ]
  ]
