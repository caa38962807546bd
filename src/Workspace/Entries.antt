-- ===== src/Workspace/Entries.antt =====
-- The invariant of the locks, and the changes of a lock and of its entry that keep it.
use mathlib.Core.Option.{some-injective}
use amplio.Common.{
  ℕ, ◌+◌, ◌-◌, ◌≤◌, ◌≡◌, refl, sym, ◌∙◌, ap, subst, inl, inr, Bool, true, false, String, str_eq,
  none, some, arith, ◌==◌, Bool-cases, eq_iff, eq_refl,
}
use amplio.Workspace.Locks.{RefLock, LinkLocks, unused_lock, with_lock, with_entry, join_lock}

abbrev pub one_if : Bool → ℕ
one_if true = 1
one_if false = 0

-- The goroutines between the two guarded sections at a lock.
abbrev pub users : RefLock → ℕ
users l = l.waiting + one_if l.held + l.leaving

-- Each lock counts its goroutines; one that has any is the entry of its key; an entry is of a lock
-- that has some; and locks are allocated in order.
unfoldable pub IsCounted : LinkLocks → Type 0
IsCounted s = (i : ℕ) → (s.lock_at i).refs ≡ users (s.lock_at i)

unfoldable pub IsEntered : LinkLocks → Type 0
IsEntered s = (i : ℕ) → 1 ≤ (s.lock_at i).refs → s.locks (s.lock_at i).key ≡ some i

unfoldable pub IsKept : LinkLocks → Type 0
IsKept s =
    (key : String) (i : ℕ)
    → s.locks key ≡ some i
    → ((s.lock_at i).key ≡ key) × (1 ≤ (s.lock_at i).refs)

unfoldable pub IsFresh : LinkLocks → Type 0
IsFresh s = (i : ℕ) → s.next_lock ≤ i → (s.lock_at i).refs ≡ 0

unfoldable pub IsSound : LinkLocks → Type 0
IsSound s = IsCounted s × IsEntered s × IsKept s × IsFresh s

-- A change of one lock that keeps its key, its allocation and whether it has goroutines.
pub changed-IsSound :
    (s : LinkLocks) (i : ℕ) (l : RefLock)
    → l.key ≡ (s.lock_at i).key
    → 1 ≤ l.refs
    → 1 ≤ (s.lock_at i).refs
    → l.refs ≡ users l
    → IsSound s
    → IsSound (record s { lock_at = with_lock i l s.lock_at })
unfolding IsSound IsCounted IsEntered IsKept IsFresh
changed-IsSound s i l same_key alive was_alive count (counted, entered, kept, fresh) = (
  λ j. elim (Bool-cases (j == i)) [ inl here ↦ rw here count | inr other ↦ rw other (counted j) ],
  λ j. elim (Bool-cases (j == i)) [
    | inl here ↦
        let at_i : j ≡ i = ground (arith, here) in
        rw (here, same_key, at_i) (λ h. entered i was_alive)
    | inr other ↦ rw other (entered j)
  ],
  λ key j. elim (Bool-cases (j == i)) [
    | inl here ↦
        let at_i : j ≡ i = ground (arith, here) in
        rw (here, at_i) (λ h. (same_key ∙ (kept key i h).0, alive))
    | inr other ↦ rw other (kept key j)
  ],
  λ j. elim (Bool-cases (j == i)) [
    | inl here ↦ λ h. absurd (omega (arith, fresh i (ground (arith, h, here)), was_alive))
    | inr other ↦ rw other (fresh j)
  ],
)

-- One more goroutine at the entry of the key.
pub join-IsSound :
    (key : String) (i : ℕ) (s : LinkLocks)
    → s.locks key ≡ some i
    → IsSound s
    → IsSound (record s { lock_at = with_lock i (join_lock (s.lock_at i)) s.lock_at })
unfolding IsSound IsCounted IsEntered IsKept IsFresh
join-IsSound key i s there (counted, entered, kept, fresh) =
    changed-IsSound s i (join_lock (s.lock_at i)) refl (omega arith) (kept key i there).1
      (omega (arith, counted i)) (counted, entered, kept, fresh)

-- A new lock, and the entry for it.
pub new-IsSound :
    (key : String) (s : LinkLocks)
    → s.locks key ≡ none
    → IsSound s
    → IsSound (record {
      locks = with_entry key (some s.next_lock) s.locks;
      lock_at = with_lock s.next_lock (join_lock (record unused_lock { key = key })) s.lock_at;
      next_lock = s.next_lock + 1;
    })
unfolding IsSound IsCounted IsEntered IsKept IsFresh
new-IsSound key s absent (counted, entered, kept, fresh) = (
  λ j. elim (Bool-cases (j == s.next_lock)) [
    | inl here ↦ rw here (omega arith)
    | inr other ↦ rw other (counted j)
  ],
  λ j. elim (Bool-cases (j == s.next_lock)) [
    | inl here ↦
        let at_new : j ≡ s.next_lock = ground (arith, here) in
        rw (here, eq_refl key, at_new) (λ h. refl)
    | inr other ↦ rw other (λ h. elim (Bool-cases (str_eq (s.lock_at j).key key)) [
      | inl same ↦ absurd (cc (entered j h, absent, (eq_iff (s.lock_at j).key key).0 same))
      | inr different ↦ rw different (entered j h)
    ])
  ],
  λ k j. elim (Bool-cases (str_eq k key)) [
    | inl same ↦ rw same (λ h.
        let at_new : s.next_lock ≡ j = some-injective s.next_lock j h in
        let here : (j == s.next_lock) ≡ true = ground (arith, at_new) in
        rw here (sym ((eq_iff k key).0 same), omega arith))
    | inr different ↦ rw different (λ h. elim (Bool-cases (j == s.next_lock)) [
      | inl here ↦ absurd (omega (arith, (kept k j h).1, fresh j (ground (arith, here))))
      | inr other ↦ rw other (kept k j h)
    ])
  ],
  λ j h. elim (Bool-cases (j == s.next_lock)) [
    | inl here ↦ absurd (ground (arith, here, h))
    | inr other ↦ rw other (fresh j (omega (arith, h)))
  ],
)

-- The last goroutine leaves, with the entry.
pub removed-IsSound :
    (i : ℕ) (s : LinkLocks)
    → 1 ≤ (s.lock_at i).leaving
    → (s.lock_at i).refs ≡ 1
    → IsSound s
    → IsSound (record s {
      lock_at =
          with_lock i
            (record (s.lock_at i) {
              refs = (s.lock_at i).refs - 1;
              leaving = (s.lock_at i).leaving - 1;
            })
            s.lock_at;
      locks = with_entry (s.lock_at i).key none s.locks;
    })
unfolding IsSound IsCounted IsEntered IsKept IsFresh
removed-IsSound i s leaves_it one (counted, entered, kept, fresh) = (
  λ j. elim (Bool-cases (j == i)) [
    | inl here ↦ rw here (omega (arith, counted i, leaves_it))
    | inr other ↦ rw other (counted j)
  ],
  λ j. elim (Bool-cases (j == i)) [
    | inl here ↦ rw here (λ h. absurd (omega (arith, h, one)))
    | inr other ↦ rw other (λ h. elim (Bool-cases (str_eq (s.lock_at j).key (s.lock_at i).key)) [
      | inl same ↦
          let keys : (s.lock_at j).key ≡ (s.lock_at i).key =
            (eq_iff (s.lock_at j).key (s.lock_at i).key).0 same in
          let at_j : s.locks (s.lock_at i).key ≡ some j =
            subst (λ k. s.locks k ≡ some j) keys (entered j h) in
          let same_lock : i ≡ j =
            some-injective i j (sym (entered i (omega (arith, one))) ∙ at_j) in
          absurd (ground (arith, other, same_lock))
      | inr different ↦ rw different (entered j h)
    ])
  ],
  λ k j. elim (Bool-cases (str_eq k (s.lock_at i).key)) [
    | inl same ↦ rw same (λ h. absurd (cc h))
    | inr different ↦ rw different (λ h. elim (Bool-cases (j == i)) [
      | inl here ↦
          let at_i : j ≡ i = ground (arith, here) in
          let keys : (s.lock_at i).key ≡ k =
            ap (λ n. (s.lock_at n).key) (sym at_i) ∙ (kept k j h).0 in
          absurd (cc (different, keys, eq_refl k))
      | inr other ↦ rw other (kept k j h)
    ])
  ],
  λ j h. elim (Bool-cases (j == i)) [
    | inl here ↦ rw here (omega (arith, one))
    | inr other ↦ rw other (fresh j h)
  ],
)
