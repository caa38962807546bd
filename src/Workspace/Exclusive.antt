-- ===== src/Workspace/Exclusive.antt =====
-- Every step keeps the invariant of the locks: mutual exclusion.
use mathlib.Core.Option.{some-injective}
use amplio.Common.{
  ℕ, ◌+◌, ◌-◌, ◌≤◌, ◌≡◌, refl, sym, ◌∙◌, subst, inl, inr, true, false, String, some, arith, ◌==◌,
  Bool-cases, Option-cases,
}
use amplio.Workspace.Locks.{
  RefLock, LinkLocks, new_link_locks, enter, acquire, unlock, leave, enters, acquires, unlocks,
  leaves, IsReachable, start, after,
}
use amplio.Workspace.Entries.{
  users, one_if, IsCounted, IsEntered, IsKept, IsFresh, IsSound, changed-IsSound, join-IsSound,
  new-IsSound, removed-IsSound,
}

enter-IsSound : (key : String) (s : LinkLocks) → IsSound s → IsSound (enter key s)
unfolding enter
enter-IsSound key s sound = elim (Option-cases (s.locks key)) [
  | inr (i, there) ↦ rw (enter, there) (join-IsSound key i s there sound)
  | inl absent ↦ rw (enter, absent) (new-IsSound key s absent sound)
]

acquire-IsSound :
    (i : ℕ) (s : LinkLocks)
    → 1 ≤ (s.lock_at i).waiting
    → (s.lock_at i).held ≡ false
    → IsSound s
    → IsSound (acquire i s)
unfolding acquire IsSound IsCounted
acquire-IsSound i s waits free sound =
    let l : RefLock = s.lock_at i in
    let count : l.refs ≡ l.waiting + l.leaving = sound.0 i ∙ ground (arith, free) in
    changed-IsSound s i (record l { held = true; waiting = l.waiting - 1 }) refl
      (omega (arith, count, waits)) (omega (arith, count, waits)) (omega (arith, count, waits))
      sound

unlock-IsSound :
    (i : ℕ) (s : LinkLocks) → (s.lock_at i).held ≡ true → IsSound s → IsSound (unlock i s)
unfolding unlock IsSound IsCounted
unlock-IsSound i s holds sound =
    let l : RefLock = s.lock_at i in
    let count : l.refs ≡ l.waiting + 1 + l.leaving = sound.0 i ∙ ground (arith, holds) in
    changed-IsSound s i (record l { held = false; leaving = l.leaving + 1 }) refl
      (omega (arith, count)) (omega (arith, count)) (omega (arith, count)) sound

leave-IsSound :
    (i : ℕ) (s : LinkLocks) → 1 ≤ (s.lock_at i).leaving → IsSound s → IsSound (leave i s)
unfolding leave IsSound IsCounted
leave-IsSound i s leaves_it sound =
    let l : RefLock = s.lock_at i in
    let count : l.refs ≡ l.waiting + one_if l.held + l.leaving = sound.0 i in
    elim (Bool-cases (l.refs - 1 == 0)) [
      | inr more ↦ rw more (
          changed-IsSound s i (record l { refs = l.refs - 1; leaving = l.leaving - 1 }) refl
            (ground (arith, more)) (ground (arith, more)) (omega (arith, count, leaves_it)) sound)
      | inl last ↦
          rw last (removed-IsSound i s leaves_it (ground (arith, last, count, leaves_it)) sound)
    ]

reachable-IsSound : (s : LinkLocks) → IsReachable s → IsSound s
unfolding new_link_locks IsSound IsCounted IsEntered IsKept IsFresh
reachable-IsSound s start =
    (λ i. refl, λ i h. absurd (omega (arith, h)), λ k i h. absurd (cc h), λ i h. refl)
reachable-IsSound s (after r (enters key t)) = enter-IsSound key t (reachable-IsSound t r)
reachable-IsSound s (after r (acquires i t waits free)) =
    acquire-IsSound i t waits free (reachable-IsSound t r)
reachable-IsSound s (after r (unlocks i t holds)) = unlock-IsSound i t holds (reachable-IsSound t r)
reachable-IsSound s (after r (leaves i t waits)) = leave-IsSound i t waits (reachable-IsSound t r)

-- In every state that goroutines reach by acquiring and releasing locks, in any order: two held locks
-- of one key are the same lock, and the map has it as the entry of its key.
pub link_locks_exclude :
    (s : LinkLocks) (i j : ℕ)
    → IsReachable s
    → (s.lock_at i).held ≡ true
    → (s.lock_at j).held ≡ true
    → (s.lock_at i).key ≡ (s.lock_at j).key
    → (i ≡ j) × (s.locks (s.lock_at i).key ≡ some i)
unfolding IsSound IsCounted IsEntered
link_locks_exclude s i j r held_i held_j same =
    let (counted, entered, kept, fresh) = reachable-IsSound s r in
    let at_i : s.locks (s.lock_at i).key ≡ some i = entered i (ground (arith, counted i, held_i)) in
    let at_j : s.locks (s.lock_at i).key ≡ some j =
      subst (λ x. s.locks x ≡ some j) (sym same) (entered j (ground (arith, counted j, held_j))) in
    (some-injective i j (sym at_i ∙ at_j), at_i)

-- In every such state, what the map holds for a key is a lock of that key at which some goroutine
-- waits, holds it, or has just given it up.
pub entry_in_use :
    (s : LinkLocks) (key : String) (i : ℕ)
    → IsReachable s
    → s.locks key ≡ some i
    → ((s.lock_at i).key ≡ key) × (1 ≤ users (s.lock_at i))
unfolding IsSound IsCounted IsKept
entry_in_use s key i r entry =
    let (counted, entered, kept, fresh) = reachable-IsSound s r in
    ((kept key i entry).0, omega (arith, counted i, (kept key i entry).1))
