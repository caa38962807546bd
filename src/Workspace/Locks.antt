-- ===== src/Workspace/Locks.antt =====
-- `LinkLocks` of internal/workspace/locks.go, as a step relation. Goroutines are counted: those that
-- wait for a lock's mutex, the one that holds it, and those that have given it up and are not yet at
-- the guard again.
use amplio.Common.{
  ℕ, ◌+◌, ◌-◌, ◌≤◌, ◌≡◌, Bool, true, false, String, str_eq, Option, none, some, ◌==◌, if◌then◌else◌,
}

-- `refLock`, with its key and the goroutines at it. `held` is the state of the mutex.
pub record RefLock : Type 0 where
  pub key : String
  pub refs : ℕ
  pub held : Bool
  pub waiting : ℕ
  pub leaving : ℕ

-- `LinkLocks`: the map, by numbers of locks, and the locks, of which those from `next_lock` on are
-- not allocated.
pub record LinkLocks : Type 0 where
  pub locks : String → Option ℕ
  pub lock_at : ℕ → RefLock
  pub next_lock : ℕ

abbrev pub unused_lock : RefLock
unused_lock = record { key = ""; refs = 0; held = false; waiting = 0; leaving = 0 }

-- `NewLinkLocks`
unfoldable pub new_link_locks : LinkLocks
new_link_locks = record { locks = λ k. none; lock_at = λ i. unused_lock; next_lock = 0 }

abbrev pub with_lock : ℕ → RefLock → (ℕ → RefLock) → ℕ → RefLock
with_lock i l locks j = if j == i then l else locks j

abbrev pub with_entry : String → Option ℕ → (String → Option ℕ) → String → Option ℕ
with_entry key entry locks k = if str_eq k key then entry else locks k

-- One more goroutine that waits.
abbrev pub join_lock : RefLock → RefLock
join_lock l = record l { refs = l.refs + 1; waiting = l.waiting + 1 }

-- `Acquire` up to the mutex, under the guard: the entry of the key, a new one if there is none.
unfoldable pub enter : String → LinkLocks → LinkLocks
enter key s = elim (s.locks key) [
  | some i ↦ record s { lock_at = with_lock i (join_lock (s.lock_at i)) s.lock_at }
  | none ↦ record {
    locks = with_entry key (some s.next_lock) s.locks;
    lock_at = with_lock s.next_lock (join_lock (record unused_lock { key = key })) s.lock_at;
    next_lock = s.next_lock + 1;
  }
]

-- `Acquire` gets the mutex.
unfoldable pub acquire : ℕ → LinkLocks → LinkLocks
acquire i s =
    let l = s.lock_at i in
    record s { lock_at = with_lock i (record l { held = true; waiting = l.waiting - 1 }) s.lock_at }

-- The release function gives up the mutex.
unfoldable pub unlock : ℕ → LinkLocks → LinkLocks
unlock i s =
    let l = s.lock_at i in
    record s {
      lock_at = with_lock i (record l { held = false; leaving = l.leaving + 1 }) s.lock_at;
    }

-- The release function under the guard: the last one removes the entry.
unfoldable pub leave : ℕ → LinkLocks → LinkLocks
leave i s =
    let l = s.lock_at i in
    record s {
      lock_at = with_lock i (record l { refs = l.refs - 1; leaving = l.leaving - 1 }) s.lock_at;
      locks = if l.refs - 1 == 0 then with_entry l.key none s.locks else s.locks;
    }

-- The steps of goroutines, in any order.
pub data Step : LinkLocks → LinkLocks → Type 0 where
  enters : (key : String) (s : LinkLocks) → Step s (enter key s)
  acquires :
      (i : ℕ) (s : LinkLocks)
      → 1 ≤ (s.lock_at i).waiting
      → (s.lock_at i).held ≡ false
      → Step s (acquire i s)
  unlocks : (i : ℕ) (s : LinkLocks) → (s.lock_at i).held ≡ true → Step s (unlock i s)
  leaves : (i : ℕ) (s : LinkLocks) → 1 ≤ (s.lock_at i).leaving → Step s (leave i s)

-- What new locks lead to.
pub data IsReachable : LinkLocks → Type 0 where
  start : IsReachable new_link_locks
  after : {s t : LinkLocks} → IsReachable s → Step s t → IsReachable t
