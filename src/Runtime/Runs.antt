-- ===== src/Runtime/Runs.antt =====
-- `RunRegistry` of internal/runtime/runreg.go: the session registries of the runs. A registry is
-- a pointer, its number in `instances`; one that the map has lost can still be in use.
use amplio.Common.{
  ℕ, zero, suc, String, Bool, true, false, List, [], ◌∷◌, ◌++◌, Option, none, some, if◌then◌else◌,
  length,
}
use amplio.Session.Registry.{Registry, new_registry, slot_of, delete_slot, is_empty, cancel_all}

pub record Runs : Type 0 where
  pub runs : List (String × ℕ)
  pub instances : List Registry

unfoldable pub new_runs : Runs
new_runs = record { runs = []; instances = [] }

unfoldable pub instance_at : ℕ → List Registry → Registry
instance_at n [] = new_registry
instance_at zero (x ∷ xs) = x
instance_at (suc n) (x ∷ xs) = instance_at n xs

unfoldable pub update_instance : ℕ → (Registry → Registry) → List Registry → List Registry
update_instance n f [] = []
update_instance zero f (x ∷ xs) = f x ∷ xs
update_instance (suc n) f (x ∷ xs) = x ∷ update_instance n f xs

-- `Get`
unfoldable pub get_run : String → Runs → Option ℕ
get_run run rr = slot_of run rr.runs

-- `GetOrCreate`
unfoldable pub get_or_create : String → Runs → ℕ × Runs
unfolding get_run
get_or_create run rr = elim (get_run run rr) [
  | some n ↦ (n, rr)
  | none ↦ (
    length rr.instances,
    record {
      runs = (run, length rr.instances) ∷ rr.runs;
      instances = rr.instances ++ new_registry ∷ [];
    },
  )
]

-- `Remove`
unfoldable pub remove : String → Runs → Runs
remove run rr = record rr { runs = delete_slot run rr.runs }

-- `RemoveIfEmpty`
unfoldable pub remove_if_empty : String → Runs → Bool × Runs
unfolding get_run remove
remove_if_empty run rr = elim (get_run run rr) [
  | none ↦ (false, rr)
  | some n ↦ if is_empty (instance_at n rr.instances) then (true, remove run rr) else (false, rr)
]

-- `IsRunActive`
unfoldable pub is_run_active : String → Runs → Bool
unfolding get_run
is_run_active run rr = elim (get_run run rr) [
  | none ↦ false
  | some n ↦ if is_empty (instance_at n rr.instances) then false else true
]

unfoldable pub active_of : List Registry → List (String × ℕ) → List String
active_of xs [] = []
active_of xs ((run, n) ∷ rest) =
    let more = active_of xs rest in if is_empty (instance_at n xs) then more else run ∷ more

-- `ActiveRunIDs`
unfoldable pub active_run_ids : Runs → List String
unfolding active_of
active_run_ids rr = active_of rr.instances rr.runs

unfoldable pub cancel_runs : List (String × ℕ) → List Registry → List Registry
cancel_runs [] xs = xs
cancel_runs ((run, n) ∷ rest) xs = cancel_runs rest (update_instance n cancel_all xs)

-- `CancelAll`
unfoldable pub cancel_all_runs : Runs → Runs
unfolding cancel_runs
cancel_all_runs rr = record rr { instances = cancel_runs rr.runs rr.instances }
