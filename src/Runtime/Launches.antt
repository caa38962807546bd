-- ===== src/Runtime/Launches.antt =====
-- Repeated wakes of a session: `RespawnSession` of internal/runtime/manager.go.
use amplio.Common.{
  ℕ, zero, suc, ◌<◌, ◌≡◌, refl, String, Bool, true, false, ◌&&◌, List, [], ◌∷◌, some, arith, inl,
  inr, Option-cases, length, length-append, eq_iff,
}
use amplio.Db.Types.{SessionRecord}
use amplio.Session.Registry.{Registry, new_registry, slot_of, register_and_context, is_registered}
use amplio.Runtime.Runs.{Runs, instance_at, update_instance, get_run, get_or_create}
use amplio.Runtime.Manager.{World, Manager}

-- Each run of the map has its registry.
unfoldable pub IsValid : Runs → Type 0
IsValid rr = (run : String) (n : ℕ) → get_run run rr ≡ some n → n < length rr.instances

pub instance-updated :
    (n : ℕ) (f : Registry → Registry) (xs : List Registry)
    → n < length xs
    → instance_at n (update_instance n f xs) ≡ f (instance_at n xs)
unfolding instance_at update_instance
instance-updated n f [] h = absurd (omega (arith, h))
instance-updated zero f (x ∷ xs) h = refl
instance-updated (suc n) f (x ∷ xs) h = instance-updated n f xs (omega (arith, h))

-- `GetOrCreate` returns a registry that the map then holds.
pub get_or_create-found :
    (run : String) (rr : Runs)
    → get_run run (get_or_create run rr).1 ≡ some (get_or_create run rr).0
unfolding get_or_create get_run slot_of
get_or_create-found run rr = elim (Option-cases (get_run run rr)) [
  | inr (n, found) ↦ rw (get_or_create, found) found
  | inl lost ↦ rw (get_or_create, lost) (ground (arith, eq_iff run run))
]

pub get_or_create-IsValid :
    (run : String) (rr : Runs) → IsValid rr → IsValid (get_or_create run rr).1
unfolding get_or_create get_run slot_of IsValid
get_or_create-IsValid run rr valid = elim (Option-cases (get_run run rr)) [
  | inr (n, found) ↦ rw (get_or_create, found) valid
  | inl lost ↦
      rw (get_or_create, lost)
        (λ other n h. ground (arith, valid other n, length-append rr.instances (new_registry ∷ [])))
]

pub register-registered :
    (done : Bool) (s : String) (reg : Registry)
    → is_registered s (register_and_context done s reg).1 ≡ true
unfolding is_registered register_and_context slot_of
register-registered done s reg = elim (Option-cases (slot_of s reg.slots)) [
  | inr (n, taken) ↦ rw (register_and_context, taken) (rw (is_registered, taken) refl)
  | inl free ↦ rw (register_and_context, free) (ground (arith, eq_iff s s))
]

module _ (w : World) (x : SessionRecord) (run s : String) where
  abbrev launches : Bool
  launches = w.agent_known x.agent_type && (w.launchable x && w.buildable x)

  -- The registry of the run once the claim has made or found it.
  abbrev claimed_in : Manager → Registry
  claimed_in m = let (n, rr) = get_or_create run m.runs in instance_at n rr.instances

  -- The registries after the slot is claimed.
  abbrev claimed : Manager → Runs
  claimed m =
      let (n, rr) = get_or_create run m.runs in
      record rr {
        instances =
            update_instance n (λ _. (register_and_context false s (claimed_in m)).1) rr.instances;
      }
