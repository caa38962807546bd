-- ===== src/Session/Allocator.antt =====
-- The name allocator of a run (internal/session/name_allocator.go).
use amplio.Common.{ℕ, Bool, true, false, String, Option, none, some, List, [], ◌∷◌, if◌then◌else◌}
use amplio.Session.Nickname.{Picked, picked, all_used, panicked, pick_unique, pool_adj, pool_noun}

-- `NameAllocator`, under its lock. The run and the store are the caller's.
pub record NameAllocator : Type 0 where
  pub used : List String
  pub seeded : Bool

-- `NewNameAllocator`
unfoldable pub new_name_allocator : NameAllocator
new_name_allocator = record { used = []; seeded = false }

-- How `Next` ends: with a name, with the store's error, or with a panic.
pub data NextName : Type 0 where
  allocated : String → NextName
  not_seeded no_name : NextName

abbrev pub reserve : Picked → NameAllocator → NextName × NameAllocator
reserve (picked name) a = (allocated name, record a { used = name ∷ a.used })
reserve all_used a = (no_name, a)
reserve panicked a = (no_name, a)

-- `Next`, with what ListSessions returns (the ids, or an error) and the draws of a new source.
unfoldable pub next_name :
    Option (List String) → (ℕ → ℕ → ℕ) → NameAllocator → NextName × NameAllocator
unfolding pick_unique
next_name sessions int_n a =
    if a.seeded then reserve (pick_unique int_n pool_adj pool_noun a.used) a else elim sessions [
      | none ↦ (not_seeded, a)
      | some ids ↦
          reserve (pick_unique int_n pool_adj pool_noun ids)
            (record a { used = ids; seeded = true })
    ]
