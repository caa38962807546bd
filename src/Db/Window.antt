-- ===== src/Db/Window.antt =====
-- The call-step window of a session (docs/internals/step_model.md), over the parts of the
-- operations of internal/db/sqlite/sqlite.go.
use mathlib.Core.Option
use amplio.Common.{
  ℕ, ◌≤◌, ◌<◌, String, Bool, true, false, ◌&&◌, ◌||◌, ◌≡◌, ◌≢◌, ◌⊎◌, inl, inr, refl, ap, ◌∙◌, List,
  [], ◌∷◌, ◌++◌, Option, some, arith, ◌==◌, if◌then◌else◌, filter, filter-append, append-nil,
}
use amplio.Event.{Event}
use amplio.Db.Types.{SessionRecord, EventRecord, EventFilter}
use amplio.Db.State.{Store, StoreEvent, Fired, emit, fire, insert_event}
use amplio.Db.Rows.{find_row, find_session, update_rows, update_session, is_event_of}
use amplio.Db.Keys.{KeepsKey, find-update_self, find-update_ne, key-cases}
use amplio.Db.Frame.{sessions-emit, events-emit, new_event, is_event_of-ne}
use amplio.Db.Events.{matching, filter_clause, from_step, until_step}

-- The row of a session that is past the step `hi`, in generation `gen`.
abbrev pub IsPast : ℕ → ℕ → Option SessionRecord → Type 0
IsPast hi gen o =
    (x : SessionRecord) × (o ≡ some x) × (hi < x.current_step) × (x.current_generation ≡ gen)

abbrev pub wanted : String → String → EventFilter → ℕ → EventRecord → Bool
wanted r s f gen x =
    is_event_of r s x
    && ((if f.current_context_only then x.step == 0 || x.generation == gen else true)
        && (from_step f.start_step x.step && until_step f.end_step x.step))

pub matching-IsPast :
    (r s : String) (f : EventFilter) {hi gen : ℕ} (d : Store)
    → IsPast hi gen (find_session r s d)
    → matching r s f d ≡ filter (wanted r s f gen) d.events
unfolding matching filter_clause
matching-IsPast r s f d (x, found, past, gen) = rw (found, ← gen)

-- An update that keeps keys and generations and lowers no step keeps a session past `hi`.
pub record Advances (g : SessionRecord → SessionRecord) : Type 0 where
  pub key : KeepsKey g
  pub generation : (y : SessionRecord) → (g y).current_generation ≡ y.current_generation
  pub step : (y : SessionRecord) → y.current_step ≤ (g y).current_step

pub IsPast-update :
    (r s r' s' : String) {g : SessionRecord → SessionRecord} {hi gen : ℕ} (l : List SessionRecord)
    → Advances g
    → IsPast hi gen (find_row r s l)
    → IsPast hi gen (find_row r s (update_rows r' s' g l))
IsPast-update r s r' s' {g} l a (x, found, past, gen) = elim (key-cases r' s' r s) [
  | inl (p, q) ↦
      rw (p, q)
        (
          g x,
          find-update_self a.key r s l ∙ ap (Option.map g) found,
          omega (arith, a.step x),
          a.generation x ∙ gen,
        )
  | inr ne ↦ (x, find-update_ne a.key r' s' r s l ne ∙ found, past, gen)
]

filter-snoc_drop :
    {A : Type 0} (p : A → Bool) (xs : List A) (y : A)
    → p y ≡ false
    → filter p (xs ++ y ∷ []) ≡ filter p xs
filter-snoc_drop p xs y h = ground (arith, filter-append p xs (y ∷ []), append-nil (filter p xs))

-- A row of another session, or of a later step, is not in the window.
late_row :
    (r s r' s' : String) (f : EventFilter) {hi : ℕ} (gen n g : ℕ) (e : Event) (d : Store)
    → f.end_step ≡ some hi
    → (r' ≢ r) ⊎ (s' ≢ s) ⊎ (hi < n)
    → wanted r s f gen (new_event r' s' n g e d) ≡ false
late_row r s r' s' f gen n g e d end (inl ne) =
    ground (arith, is_event_of-ne r s r' s' n g e d (inl ne))
late_row r s r' s' f gen n g e d end (inr (inl ne)) =
    ground (arith, is_event_of-ne r s r' s' n g e d (inr ne))
late_row r s r' s' f gen n g e d end (inr (inr lt)) = rw end (ground arith)

-- The session `s` is still past `hi`, and its window has the same rows.
pub record Same (r s : String) (f : EventFilter) (hi gen : ℕ) (d d' : Store) : Type 0 where
  pub past : IsPast hi gen (find_session r s d')
  pub rows : filter (wanted r s f gen) d'.events ≡ filter (wanted r s f gen) d.events

module _ (r s : String) (f : EventFilter) (hi gen : ℕ) (end : f.end_step ≡ some hi) where
  pub Same-refl : (d : Store) → IsPast hi gen (find_session r s d) → Same r s f hi gen d d
  Same-refl d p = record { past = p; rows = refl }

  pub Same-trans :
      {a b c : Store} → Same r s f hi gen a b → Same r s f hi gen b c → Same r s f hi gen a c
  Same-trans p q = record { past = q.past; rows = q.rows ∙ p.rows }

  pub Same-frame :
      (a b c : Store)
      → Same r s f hi gen a b
      → c.sessions ≡ b.sessions
      → c.events ≡ b.events
      → Same r s f hi gen a c
  unfolding find_session
  Same-frame a b c p es vs = record { past = rw es p.past; rows = rw vs p.rows }

  pub Same-emit :
      (a b : Store) (e : StoreEvent) → Same r s f hi gen a b → Same r s f hi gen a (emit e b)
  Same-emit a b e p = Same-frame a b (emit e b) p (sessions-emit e b) (events-emit e b)

  pub Same-fire : (a b : Store) (e : Fired) → Same r s f hi gen a b → Same r s f hi gen a (fire e b)
  unfolding fire
  Same-fire a b e p = Same-frame a b (fire e b) p refl refl

  pub Same-update :
      (r' s' : String) {g : SessionRecord → SessionRecord} (a b : Store)
      → Advances g
      → Same r s f hi gen a b
      → Same r s f hi gen a (update_session r' s' g b)
  unfolding find_session update_session
  Same-update r' s' a b adv p = record {
    past = IsPast-update r s r' s' b.sessions adv p.past;
    rows = p.rows;
  }

  pub Same-insert :
      (r' s' : String) (n g : ℕ) (e : Event) (a b : Store)
      → (r' ≢ r) ⊎ (s' ≢ s) ⊎ (hi < n)
      → Same r s f hi gen a b
      → Same r s f hi gen a (insert_event r' s' n g e b)
  unfolding find_session insert_event
  Same-insert r' s' n g e a b late p = record {
    past = p.past;
    rows =
        filter-snoc_drop (wanted r s f gen) b.events (new_event r' s' n g e b)
          (late_row r s r' s' f gen n g e b end late)
        ∙ p.rows;
  }

  -- A row at the current step of any session is late.
  pub current_late :
      (r' s' : String) (d : Store) (x : SessionRecord)
      → IsPast hi gen (find_session r s d)
      → find_session r' s' d ≡ some x
      → (r' ≢ r) ⊎ (s' ≢ s) ⊎ (hi < x.current_step)
  current_late r' s' d x (y, found, past, _) h = elim (key-cases r' s' r s) [
    | inl (p, q) ↦
        inr (inr (ground (arith, ap (λ t. find_session t s' d) p, ap (λ t. find_session r t d) q)))
    | inr (inl ne) ↦ inl ne
    | inr (inr ne) ↦ inr (inl ne)
  ]
