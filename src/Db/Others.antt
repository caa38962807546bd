-- ===== src/Db/Others.antt =====
-- The turns, the compactions and the creation of other sessions, against the window of a session.
use amplio.Common.{
  ℕ, ◌+◌, String, true, false, ◌||◌, ◌≡◌, ◌⊎◌, inl, inr, refl, ap, ◌∙◌, List, [], ◌∷◌, ◌++◌, eq_iff,
  map, filter, any, some, arith, Option-cases, Bool-cases, ltb,
}
use amplio.Event.{Event, compaction}
use amplio.Db.Types.{SessionRecord, EventRecord, EventFilter}
use amplio.Db.State.{Store, Driver, fire, insert_event, commit}
use amplio.Db.Rows.{find_row, find_session, update_session, is_session, is_event_of}
use amplio.Db.Keys.{find-update_ne}
use amplio.Db.Window.{
  IsPast, Same, Same-refl, Same-fire, Same-emit, Same-update, Same-insert, wanted,
}
use amplio.Db.Arrivals.{Differs, Late-of_Differs, Advances-finalized}
use amplio.Db.Sessions.{create_session, new_row}
use amplio.Db.Events.{finalize_step, insert_all, fire_all}
use amplio.Db.Compact.{compact_context, carry, is_carried}

find_row-append :
    (r s : String) (l m : List SessionRecord) {x : SessionRecord}
    → find_row r s l ≡ some x
    → find_row r s (l ++ m) ≡ some x
unfolding find_row
find_row-append r s [] m h = absurd (cc h)
find_row-append r s (y ∷ l) m h = elim (Bool-cases (is_session r s y)) [
  | inl here ↦ rw here (rw here at h)
  | inr other ↦ rw other (find_row-append r s l m (rw other at h))
]

other_event :
    (r' s' r s : String) (e : EventRecord)
    → Differs r' s' r s
    → is_event_of r' s' e ≡ true
    → is_event_of r s e ≡ false
unfolding is_event_of
other_event r' s' r s e (inl ne) h = ground (arith, h, eq_iff e.run_id r, eq_iff e.run_id r', ne)
other_event r' s' r s e (inr ne) h =
    ground (arith, h, eq_iff e.session_id s, eq_iff e.session_id s', ne)

module _ (v : Driver) (r s : String) (f : EventFilter) (hi gen : ℕ)
    (end : f.end_step ≡ some hi) where
  abbrev Kept : Store → Store → Type 0
  Kept d d' = Same r s f hi gen d d'

  -- A session is created, or refused as a duplicate.
  pub create-Same :
      (x : SessionRecord) (d : Store)
      → IsPast hi gen (find_session r s d)
      → Kept d (create_session v x d).1
  unfolding create_session find_session
  create-Same x d p = elim (Bool-cases (v x.run_id x.session_id d)) [
    | inl bad ↦ rw (create_session, bad) (Same-refl r s f hi gen end d p)
    | inr good ↦ elim (Bool-cases (any (is_session x.run_id x.session_id) d.sessions)) [
      | inl twice ↦ rw (create_session, good, twice) (Same-refl r s f hi gen end d p)
      | inr new ↦
          let (y, found, past, same) = p in
          rw (create_session, good, new)
            (Same-emit r s f hi gen end _ _ _ (record {
              past = (y, find_row-append r s d.sessions (new_row x d.clock ∷ []) found, past, same);
              rows = refl;
            }))
    ]
  ]

  inserted-Same :
      (r' s' : String) (n g : ℕ) (es : List Event) (a b : Store)
      → Differs r' s' r s
      → Kept a b
      → Kept a (insert_all r' s' n g es b)
  unfolding insert_all
  inserted-Same r' s' n g [] a b ne h = h
  inserted-Same r' s' n g (e ∷ es) a b ne h =
      inserted-Same r' s' n g es a (insert_event r' s' n g e b) ne
        (Same-insert r s f hi gen end r' s' n g e a b (Late-of_Differs ne) h)

  fired-Same :
      (r' s' : String) (n : ℕ) (es : List Event) (a b : Store)
      → Kept a b
      → Kept a (fire_all r' s' n es b)
  unfolding fire_all
  fired-Same r' s' n [] a b h = h
  fired-Same r' s' n (e ∷ es) a b h =
      fired-Same r' s' n es a (fire (commit r' s' e n) b) (Same-fire r s f hi gen end a b _ h)

  -- A turn of another session.
  pub finalize-Same :
      (r' s' : String) (n : ℕ) (es : List Event) (d : Store)
      → Differs r' s' r s
      → IsPast hi gen (find_session r s d)
      → Kept d (finalize_step v r' s' n es d).1
  unfolding finalize_step
  finalize-Same r' s' n es d ne p = elim (Bool-cases (v r' s' d)) [
    | inl bad ↦ rw bad (Same-refl r s f hi gen end d p)
    | inr good ↦ elim (Option-cases (find_session r' s' d)) [
      | inl lost ↦ rw (good, lost) (Same-refl r s f hi gen end d p)
      | inr (x, found) ↦
          rw (good, found)
            (Same-fire r s f hi gen end _ _ _ (
              fired-Same r' s' n es d _ (
                Same-emit r s f hi gen end _ _ _ (
                  Same-update r s f hi gen end r' s' d _ (Advances-finalized n) (
                    inserted-Same r' s' n x.current_generation es d d ne
                      (Same-refl r s f hi gen end d p))))))
    ]
  ]

  wanted-carry :
      (r' s' : String) (g boundary : ℕ) (e : EventRecord)
      → Differs r' s' r s
      → (carry r' s' g boundary e ≡ e)
        ⊎ ((wanted r s f gen (carry r' s' g boundary e) ≡ false) × (wanted r s f gen e ≡ false))
  unfolding carry is_carried is_event_of
  wanted-carry r' s' g boundary e ne = elim (Bool-cases (is_carried r' s' g boundary e)) [
    | inr stays ↦ inl (rw stays refl)
    | inl moves ↦
        let other = other_event r' s' r s e ne (ground (arith, moves)) in
        inr (rw moves (ground (arith, other)), ground (arith, other))
  ]

  rows-carry :
      (r' s' : String) (g boundary : ℕ) (l : List EventRecord)
      → Differs r' s' r s
      → filter (wanted r s f gen) (map (carry r' s' g boundary) l) ≡ filter (wanted r s f gen) l
  rows-carry r' s' g boundary [] ne = refl
  rows-carry r' s' g boundary (e ∷ l) ne =
      let rest = rows-carry r' s' g boundary l ne in
      elim (wanted-carry r' s' g boundary e ne) [
        | inl same ↦ elim (Bool-cases (wanted r s f gen e)) [
          | inl stays ↦ rw (filter, same, stays) (ap (λ t. e ∷ t) rest)
          | inr out ↦ rw (filter, same, out) rest
        ]
        | inr (gone, out) ↦ rw (filter, gone, out) rest
      ]

  -- A compaction of another session.
  pub compact-Same :
      (r' s' : String) (n : ℕ) (text : String) (d : Store)
      → Differs r' s' r s
      → IsPast hi gen (find_session r s d)
      → Kept d (compact_context v r' s' n text d).1
  unfolding compact_context find_session update_session
  compact-Same r' s' n text d ne p = elim (Bool-cases (v r' s' d)) [
    | inl bad ↦ rw (compact_context, bad) (Same-refl r s f hi gen end d p)
    | inr good ↦ elim (Option-cases (find_session r' s' d)) [
      | inl lost ↦ rw (compact_context, good, lost) (Same-refl r s f hi gen end d p)
      | inr (x, found) ↦ elim (Bool-cases (ltb n 1 || ltb x.current_step n)) [
        | inl out ↦ rw (compact_context, good, found, out) (Same-refl r s f hi gen end d p)
        | inr within ↦
            let (y, there, past, same) = p in
            let next = x.current_generation + 1 in
            rw (compact_context, good, found, within)
              (Same-emit r s f hi gen end _ _ _ (
                Same-insert r s f hi gen end r' s' n next (compaction text) d _ (Late-of_Differs ne)
                  (record {
                    past = (
                      y,
                      find-update_ne (record { run = λ z. refl; session = λ z. refl }) r' s' r s
                            d.sessions ne
                          ∙ there,
                      past,
                      same,
                    );
                    rows = rows-carry r' s' x.current_generation n d.events ne;
                  })))
      ]
    ]
  ]
