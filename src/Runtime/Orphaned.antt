-- ===== src/Runtime/Orphaned.antt =====
-- The window between `GetOrCreate` and `RegisterAndContext` in `RespawnSession` of
-- internal/runtime/manager.go.
use amplio.Common.{ℕ, ◌≡◌, refl, String, true, false, some}
use amplio.Session.Registry.{is_registered, is_empty, register_and_context}
use amplio.Runtime.Runs.{
  Runs, get_run, get_or_create, remove, remove_if_empty, instance_at, update_instance,
}
use amplio.Runtime.Manager.{Manager}
use amplio.Runtime.Wake.{is_live}
use amplio.Runtime.Launches.{
  IsValid, get_or_create-found, get_or_create-IsValid, instance-updated, register-registered,
}
use amplio.Runtime.Valid.{slot-deleted}

-- `GetOrCreate`, then another goroutine's `RemoveIfEmpty`, then `RegisterAndContext` on the
-- instance.
unfoldable pub late_claim : String → String → Runs → Runs
late_claim run s before =
    let (n, rr) = get_or_create run before in
    let rr' = (remove_if_empty run rr).1 in
    record rr' {
      instances = update_instance n (λ reg. (register_and_context false s reg).1) rr'.instances;
    }

module _ (run : String) (rr : Runs) {n : ℕ} (found : get_run run rr ≡ some n)
    (empty : is_empty (instance_at n rr.instances) ≡ true) where
  removed : (remove_if_empty run rr).1 ≡ remove run rr
  unfolding remove_if_empty
  removed = rw (remove_if_empty, found, empty) refl

-- An empty registry that is removed from the map after `GetOrCreate` has returned it and before the
-- session takes its slot: the session has a slot in the registry, but the map has lost it, so the
-- session is not live for the runtime. Each run of the map has its registry before.
pub late_claim_lost :
    (run s : String) (m : Manager)
    → IsValid m.runs
    → is_empty (instance_at (get_or_create run m.runs).0 (get_or_create run m.runs).1.instances)
      ≡ true
    → (is_registered s
          (instance_at (get_or_create run m.runs).0 (late_claim run s m.runs).instances)
        ≡ true)
      × (is_live run s (record m { runs = late_claim run s m.runs }) ≡ false)
unfolding late_claim is_live get_run remove IsValid
late_claim_lost run s m valid empty =
    let (n, rr) = get_or_create run m.runs in
    let found = get_or_create-found run m.runs in
    let inside = get_or_create-IsValid run m.runs valid run n found in
    rw (removed run rr found empty) (
      rw (instance-updated n (λ reg. (register_and_context false s reg).1) rr.instances inside)
          (register-registered false s (instance_at n rr.instances)),
      rw (is_live, slot-deleted run rr.runs) refl,
    )
