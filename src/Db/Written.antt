-- ===== src/Db/Written.antt =====
-- The operations of internal/db/sqlite/sqlite.go that keep or raise generations, one by one.
use amplio.Common.{
  ℕ, ◌+◌, String, ◌≡◌, inl, inr, refl, List, [], ◌∷◌, Option, none, some, arith, Bool-cases,
  Option-cases, str_eq,
}
use amplio.Event.{Event, Status, child_result}
use amplio.Db.Types.{SessionRecord, is_terminal}
use amplio.Db.State.{Store, Driver, StoreEvent, Fired, emit, fire, insert_event}
use amplio.Db.Rows.{find_session, update_rows, update_session}
use amplio.Db.Keys.{KeepsKey}
use amplio.Db.Frame.{status-KeepsKey}
use amplio.Db.Sessions.{
  update_session_status, advance_step, mark_step_finalized, set_last_summarized_step,
  set_last_phased_step,
}
use amplio.Db.Events.{append_event, append_event_at_step, finalize_step, insert_all, fire_all}
use amplio.Db.Terminate.{
  terminate, insert_self, settle, announce, announce_to_parent, notify_parent, step_or,
}
use amplio.Db.Reach.{
  Reached, IsReached, Grows, Reached-update, IsReached-emit, IsReached-fire, IsReached-update,
  IsReached-insert,
}

-- The row of a session as its generation.
own :
    (r s : String) (d : Store) {x : SessionRecord}
    → find_session r s d ≡ some x
    → Reached d.sessions r s x.current_generation
unfolding Reached find_session
own r s d {x} found = (x, found, omega arith)

Grows-plain :
    {g : SessionRecord → SessionRecord}
    → KeepsKey g
    → ((y : SessionRecord) → (g y).current_generation ≡ y.current_generation)
    → Grows g
Grows-plain {g} key same = record { key = key; generation = λ y. omega (arith, same y) }

Grows-status :
    (status : Status) (now : ℕ) → Grows (λ x. record x { status = status; status_changed_at = now })
Grows-status status now = Grows-plain (status-KeepsKey status now) (λ y. refl)

plain_key : KeepsKey (λ y. record y { current_step = y.current_step + 1 })
plain_key = record { run = λ x. refl; session = λ x. refl }

-- A row is written and its commit is sent.
posted :
    (r s : String) (step n : ℕ) (e : Event) (q : StoreEvent) (f : Fired) (d : Store)
    → Reached d.sessions r s n
    → IsReached d
    → IsReached (fire f (emit q (insert_event r s step n e d)))
posted r s step n e q f d known h =
    IsReached-fire f _ (IsReached-emit q _ (IsReached-insert r s step n e d known h))

insert_all-IsReached :
    (r s : String) (step n : ℕ) (es : List Event) (d : Store)
    → Reached d.sessions r s n
    → IsReached d
    → IsReached (insert_all r s step n es d)
unfolding insert_all insert_event
insert_all-IsReached r s step n [] d known h = h
insert_all-IsReached r s step n (e ∷ es) d known h =
    insert_all-IsReached r s step n es (insert_event r s step n e d) known
      (IsReached-insert r s step n e d known h)

fire_all-IsReached :
    (r s : String) (step : ℕ) (es : List Event) (d : Store)
    → IsReached d
    → IsReached (fire_all r s step es d)
unfolding fire_all
fire_all-IsReached r s step [] d h = h
fire_all-IsReached r s step (e ∷ es) d h = fire_all-IsReached r s step es _ (IsReached-fire _ d h)

insert_self-IsReached :
    (r s : String) (self : Option Event) (step : Option ℕ) (x : SessionRecord) (d : Store)
    → Reached d.sessions r s x.current_generation
    → IsReached d
    → IsReached (insert_self r s self step x d)
unfolding insert_self
insert_self-IsReached r s none step x d known h = h
insert_self-IsReached r s (some e) step x d known h =
    IsReached-insert r s (step_or step x.current_step) x.current_generation e d known h

notify_parent-IsReached :
    (r s parent : String) (status : Status) (content : String) (o : Option SessionRecord)
    (before d : Store)
    → find_session r parent d ≡ o
    → IsReached before
    → IsReached d
    → IsReached (notify_parent r s parent status content o before d).1
unfolding notify_parent announce_to_parent
notify_parent-IsReached r s parent status content none before d known old h = old
notify_parent-IsReached r s parent status content (some p) before d known old h =
    IsReached-fire _ _ (
      IsReached-fire _ _ (
        IsReached-emit _ _ (
          IsReached-emit _ _ (
            IsReached-insert r parent p.current_step p.current_generation
              (child_result content s status) d (own r parent d known) h))))

module _ (v : Driver) (r s : String) where
  pub append-IsReached :
      (e : Event) (d : Store) → IsReached d → IsReached (append_event v r s e d).1
  unfolding append_event
  append-IsReached e d h = elim (Bool-cases (v r s d)) [
    | inl bad ↦ rw bad h
    | inr good ↦ elim (Option-cases (find_session r s d)) [
      | inl lost ↦ rw (good, lost) h
      | inr (x, found) ↦
          rw (good, found)
            (posted r s x.current_step x.current_generation e _ _ d (own r s d found) h)
    ]
  ]

  pub append_at-IsReached :
      (n : ℕ) (e : Event) (d : Store) → IsReached d → IsReached (append_event_at_step v r s n e d).1
  unfolding append_event_at_step
  append_at-IsReached n e d h = elim (Bool-cases (v r s d)) [
    | inl bad ↦ rw bad h
    | inr good ↦ elim (Option-cases (find_session r s d)) [
      | inl lost ↦ rw (good, lost) h
      | inr (x, found) ↦
          rw (good, found) (posted r s n x.current_generation e _ _ d (own r s d found) h)
    ]
  ]

  pub finalize-IsReached :
      (n : ℕ) (es : List Event) (d : Store) → IsReached d → IsReached (finalize_step v r s n es d).1
  unfolding finalize_step
  finalize-IsReached n es d h = elim (Bool-cases (v r s d)) [
    | inl bad ↦ rw bad h
    | inr good ↦ elim (Option-cases (find_session r s d)) [
      | inl lost ↦ rw (good, lost) h
      | inr (x, found) ↦
          rw (good, found)
            (IsReached-fire _ _ (
              fire_all-IsReached r s n es _ (
                IsReached-emit _ _ (
                  IsReached-update r s _
                    (Grows-plain (record { run = λ y. refl; session = λ y. refl }) (λ y. refl))
                    (insert_all-IsReached r s n x.current_generation es d (own r s d found) h)))))
    ]
  ]

  pub set_status-IsReached :
      (status : Status) (d : Store)
      → IsReached d
      → IsReached (update_session_status v r s status d).1
  unfolding update_session_status
  set_status-IsReached status d h = elim (Bool-cases (v r s d)) [
    | inl bad ↦ rw bad h
    | inr good ↦ rw good (
        IsReached-fire _ _
          (IsReached-emit _ _ (IsReached-update r s d (Grows-status status d.clock) h)))
  ]

  pub advance-IsReached : (d : Store) → IsReached d → IsReached (advance_step v r s d).1
  unfolding advance_step
  advance-IsReached d h = elim (Bool-cases (v r s d)) [
    | inl bad ↦ rw bad h
    | inr good ↦ elim (Option-cases (find_session r s d)) [
      | inl lost ↦ rw (good, lost) h
      | inr (x, found) ↦
          rw (good, found)
            (IsReached-emit _ _ (IsReached-update r s d (Grows-plain plain_key (λ y. refl)) h))
    ]
  ]

  pub mark-IsReached :
      (n : ℕ) (d : Store) → IsReached d → IsReached (mark_step_finalized v r s n d).1
  unfolding mark_step_finalized
  mark-IsReached n d h = elim (Bool-cases (v r s d)) [
    | inl bad ↦ rw bad h
    | inr good ↦ rw good (
        IsReached-fire _ _ (
          IsReached-update r s d
            (Grows-plain (record { run = λ y. refl; session = λ y. refl }) (λ y. refl)) h))
  ]

  pub summarized-IsReached :
      (n : ℕ) (d : Store) → IsReached d → IsReached (set_last_summarized_step v r s n d).1
  unfolding set_last_summarized_step
  summarized-IsReached n d h = elim (Bool-cases (v r s d)) [
    | inl bad ↦ rw bad h
    | inr good ↦ rw good (
        IsReached-update r s d
          (Grows-plain (record { run = λ y. refl; session = λ y. refl }) (λ y. refl)) h)
  ]

  pub phased-IsReached :
      (n : ℕ) (d : Store) → IsReached d → IsReached (set_last_phased_step v r s n d).1
  unfolding set_last_phased_step
  phased-IsReached n d h = elim (Bool-cases (v r s d)) [
    | inl bad ↦ rw bad h
    | inr good ↦ rw good (
        IsReached-update r s d
          (Grows-plain (record { run = λ y. refl; session = λ y. refl }) (λ y. refl)) h)
  ]

  pub terminate-IsReached :
      (parent : String) (status : Status) (content : String) (self : Option Event) (step : Option ℕ)
      (d : Store)
      → IsReached d
      → IsReached (terminate r s v parent status content self step d).1
  unfolding terminate settle announce update_session update_rows
  terminate-IsReached parent status content self step d h = elim (Bool-cases (v r s d)) [
    | inl bad ↦ rw bad h
    | inr good ↦ elim (Option-cases (find_session r s d)) [
      | inl lost ↦ rw (good, lost) h
      | inr (x, found) ↦ elim (Bool-cases (is_terminal x.status)) [
        | inl done ↦ rw (good, found, done) h
        | inr live ↦
            let grows = Grows-status status d.clock in
            let done =
              insert_self-IsReached r s self step x (settle r s status d)
                (Reached-update r s d.sessions r s x.current_generation grows (own r s d found))
                (IsReached-update r s d grows h) in
            elim (Bool-cases (str_eq parent "")) [
              | inl root ↦
                  rw (good, found, live, root) (IsReached-fire _ _ (IsReached-emit _ _ done))
              | inr child ↦
                  rw (good, found, live, child)
                    (notify_parent-IsReached r s parent status content _ d _ refl h done)
            ]
      ]
    ]
  ]
