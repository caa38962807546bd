-- ===== src/Db/Erased.antt =====
-- What a deletion of a run leaves of it, and what seeing a run does to its badge.
use amplio.Common.{
  ℕ, ◌≤◌, ◌≡◌, refl, String, Bool, false, not, ◌&&◌, some, List, [], ◌∷◌, str_eq, ltb, any, filter,
  arith, inl, inr, Bool-cases, All,
}
use amplio.Db.Types.{SessionRecord}
use amplio.Db.State.{Store, Driver, run_updated}
use amplio.Db.Frame.{sessions-emit, events-emit}
use amplio.Db.Runs.{RunRecord, RunStore, is_run, is_root_of, is_at_rest, has_updates}
use amplio.Db.RunCalls.{delete_run}

none_left_over :
    {A : Type 0} (p : A → Bool) (xs : List A) → any p (filter (λ x. not (p x)) xs) ≡ false
none_left_over p [] = refl
none_left_over p (x ∷ xs) = elim (Bool-cases (p x)) [
  | inl here ↦ rw (filter, here) (none_left_over p xs)
  | inr other ↦ ground (arith, other, none_left_over p xs)
]

-- A deletion that the database does not refuse leaves no row of the run, of its sessions and of their
-- events.
pub delete_run_erases :
    (driver : Driver) (r : String) (d : RunStore)
    → driver r "" d.core ≡ false
    → let after = (delete_run driver r d).1 in
      (any (is_run r) after.runs ≡ false)
      × (any (λ s. str_eq s.run_id r) after.core.sessions ≡ false)
      × (any (λ e. str_eq e.run_id r) after.core.events ≡ false)
unfolding delete_run
delete_run_erases driver r d works =
    let kept : Store = record (d.core) {
      sessions = filter (λ s. not (str_eq s.run_id r)) d.core.sessions;
      events = filter (λ e. not (str_eq e.run_id r)) d.core.events;
    } in
    rw (delete_run, works, sessions-emit (run_updated r) kept, events-emit (run_updated r) kept)
      (
        none_left_over (is_run r) d.runs,
        none_left_over (λ s. str_eq s.run_id r) d.core.sessions,
        none_left_over (λ e. str_eq e.run_id r) d.core.events,
      )

nothing_later :
    (r : String) (now : ℕ) (sessions : List SessionRecord)
    → All (λ s. s.status_changed_at ≤ now) sessions
    → any (λ s. is_root_of r s && (is_at_rest s.status && ltb now s.status_changed_at)) sessions
      ≡ false
nothing_later r now [] all = refl
nothing_later r now (s ∷ sessions) (before, all) =
    let past : ltb now s.status_changed_at ≡ false = ground (arith, before) in
    rw (any, past) (ground (arith, nothing_later r now sessions all))

-- A run that is seen has no updates, as long as no session has changed its status later.
pub mark_run_seen_clears :
    (d : Store) (x : RunRecord)
    → All (λ s. s.status_changed_at ≤ d.clock) d.sessions
    → has_updates d (record x { last_seen_at = some d.clock }) ≡ false
unfolding has_updates
mark_run_seen_clears d x all = nothing_later x.run_id d.clock d.sessions all
