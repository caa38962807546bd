-- ===== src/Runtime/Valid.antt =====
-- The map and the registries of `RunRegistry` of internal/runtime/runreg.go.
use amplio.Common.{ℕ, ◌≡◌, refl, String, List, [], ◌∷◌, none, str_eq, Bool-cases, inl, inr}
use amplio.Session.Registry.{slot_of, delete_slot}

pub slot-deleted : (run : String) (l : List (String × ℕ)) → slot_of run (delete_slot run l) ≡ none
unfolding slot_of delete_slot
slot-deleted run [] = refl
slot-deleted run ((k, i) ∷ l) = elim (Bool-cases (str_eq k run)) [
  | inl p ↦ rw p (slot-deleted run l)
  | inr p ↦ rw (p, p) (slot-deleted run l)
]
