-- ===== src/Stream/Accounts.antt =====
-- What one operation of the bus does to one subscription, and the accounts that it keeps.

use mathlib.Core.List.{Perm, perm_middle}
use mathlib.Core.List.Perm
use amplio.Common.{
  ◌⊎◌, ℕ, ◌≡◌, refl, sym, ◌∙◌, ap, subst, inl, inr, Bool, false, not, ◌||◌, Option, none, some,
  List, [], ◌∷◌, ◌++◌, arith, ltb, ◌==◌, if◌then◌else◌, length, Bool-cases, Option-cases,
  append-nil,
}
use amplio.Stream.Bus.{
  RunEvent, Subscription, Bus, refetch_all, deliver, register, prime, targets, publish, sub_at,
  update_at, delivery_at, deliver_one, take_first, first_event, clear_overflow, detach, Op,
  registered, published, primed, delivered, received, overflow_taken, closed, run_op,
}
use amplio.Stream.Reader.{
  pending, first_at, overflow_at, received_by, overflow_seen, marker, owed_of,
}
use amplio.Stream.Lookup.{sub_at-append, sub_at-update_at, sub_at_other}
use amplio.Stream.Flight.{pending-append, for_place, pending-without, pending-targets}

-- What an operation does to one subscription, receives from it, sees of its flag and sends to it.
abbrev delivered_to : ℕ → ℕ → Option (ℕ × RunEvent) → Subscription → Subscription
delivered_to i depth none s = s
delivered_to i depth (some (j, ev)) s = if j == i then deliver depth ev s else s

unfoldable pub sub_op : ℕ → Op → Bus → Subscription → Subscription
sub_op i (registered r) b s = s
sub_op i (published ev) b s = s
sub_op i (primed j) b s = if j == i then prime b.depth s else s
sub_op i (delivered n) b s = delivered_to i b.depth (delivery_at n b.in_flight) s
sub_op i (received j) b s = if j == i then take_first s else s
sub_op i (overflow_taken j) b s = if j == i then clear_overflow s else s
sub_op i (closed j) b s = if j == i then detach s else s

unfoldable pub got_of : ℕ → Op → Subscription → List RunEvent
got_of i (received j) s = if j == i then first_event s else []
got_of i (registered r) s = []
got_of i (published ev) s = []
got_of i (primed j) s = []
got_of i (delivered n) s = []
got_of i (overflow_taken j) s = []
got_of i (closed j) s = []

unfoldable pub seen_of : ℕ → Op → Subscription → Bool
seen_of i (overflow_taken j) s = if j == i then s.overflow else false
seen_of i (registered r) s = false
seen_of i (published ev) s = false
seen_of i (primed j) s = false
seen_of i (delivered n) s = false
seen_of i (received j) s = false
seen_of i (closed j) s = false

abbrev due_to : ℕ → Option (ℕ × RunEvent) → List RunEvent
due_to i none = []
due_to i (some d) = for_place i d

unfoldable pub sent_of : ℕ → Op → Bus → Subscription → List RunEvent
sent_of i (delivered n) b s = due_to i (delivery_at n b.in_flight)
sent_of i (primed j) b s = if j == i then marker b.depth s else []
sent_of i (registered r) b s = []
sent_of i (published ev) b s = []
sent_of i (received j) b s = []
sent_of i (overflow_taken j) b s = []
sent_of i (closed j) b s = []

updated :
    (i j : ℕ) (f : Subscription → Subscription) (s : Subscription) (subs : List Subscription)
    → sub_at i subs ≡ some s
    → sub_at i (update_at j f subs) ≡ some (if j == i then f s else s)
updated i j f s subs h = elim (Bool-cases (j == i)) [
  | inl same ↦
      let is : j ≡ i = ground (arith, same) in rw (same, is) (sub_at-update_at i f s subs h)
  | inr other ↦ rw (other, sub_at_other i j f subs other) h
]

pub sub_at-run_op :
    (i : ℕ) (op : Op) (b : Bus) (s : Subscription)
    → sub_at i b.subs ≡ some s
    → sub_at i (run_op op b).subs ≡ some (sub_op i op b s)
unfolding run_op register publish deliver_one sub_op
sub_at-run_op i (registered r) b s h = sub_at-append i s _ b.subs h
sub_at-run_op i (published ev) b s h = h
sub_at-run_op i (primed j) b s h = updated i j (prime b.depth) s b.subs h
sub_at-run_op i (delivered n) b s h = elim (Option-cases (delivery_at n b.in_flight)) [
  | inl over ↦ rw (deliver_one, over) h
  | inr ((j, ev), next) ↦ rw (deliver_one, next) (updated i j (deliver b.depth ev) s b.subs h)
]
sub_at-run_op i (received j) b s h = updated i j take_first s b.subs h
sub_at-run_op i (overflow_taken j) b s h = updated i j clear_overflow s b.subs h
sub_at-run_op i (closed j) b s h = updated i j detach s b.subs h

queue_cases :
    (q : List RunEvent) → (q ≡ []) ⊎ ((ev : RunEvent) × (rest : List RunEvent) × (q ≡ ev ∷ rest))
queue_cases [] = inl refl
queue_cases (ev ∷ rest) = inr (ev, rest, refl)

receive_account :
    (s : Subscription)
    → ((take_first s).overflow ≡ s.overflow) × (first_event s ++ (take_first s).queue ≡ s.queue)
receive_account s = elim (queue_cases s.queue) [
  | inl empty ↦ (rw (take_first, empty) refl, rw (first_event, take_first, empty) empty)
  | inr (ev, rest, full) ↦ (rw (take_first, full) refl, rw (first_event, take_first, full) refl)
]

prime_account :
    (depth : ℕ) (s : Subscription)
    → ((prime depth s).overflow ≡ s.overflow) × ((prime depth s).queue ≡ s.queue ++ marker depth s)
unfolding prime
prime_account depth s = elim (Bool-cases (s.primed || not (ltb (length s.queue) depth))) [
  | inl waits ↦ rw (prime, waits) (refl, sym (append-nil s.queue))
  | inr sends ↦ rw (prime, sends) (refl, refl)
]

-- An operation that leaves no trace of an overflow keeps the account of the subscription.
pub balanced :
    (i : ℕ) (op : Op) (b : Bus) (s : Subscription)
    → (seen_of i op s || (sub_op i op b s).overflow) ≡ false
    → (s.overflow ≡ false)
      × (got_of i op s ++ (sub_op i op b s).queue ≡ s.queue ++ sent_of i op b s)
unfolding sub_op got_of seen_of sent_of deliver
balanced i (registered r) b s h = (h, sym (append-nil s.queue))
balanced i (published ev) b s h = (h, sym (append-nil s.queue))
balanced i (primed j) b s h = elim (Bool-cases (j == i)) [
  | inr other ↦ rw other (rw other at h, sym (append-nil s.queue))
  | inl same ↦ let p = prime_account b.depth s in rw same (sym p.0 ∙ rw same at h, p.1)
]
balanced i (delivered n) b s h = elim (Option-cases (delivery_at n b.in_flight)) [
  | inl over ↦ rw over (rw over at h, sym (append-nil s.queue))
  | inr ((j, ev), next) ↦ elim (Bool-cases (j == i)) [
    | inr other ↦ rw (next, other) (rw (next, other) at h, sym (append-nil s.queue))
    | inl same ↦ elim (Bool-cases (ltb (length s.queue) b.depth)) [
      | inl room ↦ rw (next, same, room) (rw (next, same, room) at h, refl)
      | inr full ↦ absurd (cc (rw (next, same, full) at h))
    ]
  ]
]
balanced i (received j) b s h = elim (Bool-cases (j == i)) [
  | inr other ↦ rw other (rw other at h, sym (append-nil s.queue))
  | inl same ↦
      rw same
        (sym (receive_account s).0 ∙ rw same at h, (receive_account s).1 ∙ sym (append-nil s.queue))
]
balanced i (overflow_taken j) b s h = elim (Bool-cases (j == i)) [
  | inr other ↦ rw other (rw other at h, sym (append-nil s.queue))
  | inl same ↦ rw same (ground (arith, h, same), sym (append-nil s.queue))
]
balanced i (closed j) b s h = elim (Bool-cases (j == i)) [
  | inr other ↦ rw other (rw other at h, sym (append-nil s.queue))
  | inl same ↦ rw same (rw same at h, sym (append-nil s.queue))
]

-- The same list, with nothing more.
pub same_list : (p q : List RunEvent) → q ≡ p → Perm q (p ++ [])
same_list p q e = subst (Perm q) (e ∙ sym (append-nil p)) (Perm.refl q)

marker_last :
    (depth : ℕ) (s : Subscription) (p : List RunEvent)
    → Perm (marker depth s ++ p) (p ++ marker depth s)
marker_last depth s p = elim (Bool-cases (s.primed || not (ltb (length s.queue) depth))) [
  | inl waits ↦ rw waits (same_list p p refl)
  | inr sends ↦ rw sends (
      Perm.trans (same_list (refetch_all s.run_id ∷ p) (refetch_all s.run_id ∷ p) refl)
        (Perm.symm (perm_middle p [])))
]

-- What an operation sends was left to deliver, or is what it makes due.
pub conserved :
    (i : ℕ) (op : Op) (b : Bus) (s : Subscription)
    → sub_at i b.subs ≡ some s
    → Perm
        (sent_of i op b s ++ pending i (run_op op b).in_flight)
        (pending i b.in_flight ++ owed_of i op b.depth s)
unfolding sent_of run_op register publish deliver_one
conserved i (registered r) b s h = same_list _ _ refl
conserved i (published ev) b s h =
    subst (Perm (pending i (b.in_flight ++ targets ev 0 b.subs)))
      (pending-append i b.in_flight (targets ev 0 b.subs)
        ∙ ap (λ l. pending i b.in_flight ++ l) (pending-targets i 0 i ev b.subs s (omega arith) h))
      (Perm.refl (pending i (b.in_flight ++ targets ev 0 b.subs)))
conserved i (primed j) b s h = elim (Bool-cases (j == i)) [
  | inr other ↦ rw other (same_list _ _ refl)
  | inl same ↦ rw same (marker_last b.depth s (pending i b.in_flight))
]
conserved i (delivered n) b s h = elim (Option-cases (delivery_at n b.in_flight)) [
  | inl over ↦ rw (deliver_one, over) (same_list _ _ refl)
  | inr (d, next) ↦
      rw (deliver_one, next)
        (Perm.trans (pending-without i n b.in_flight d next) (same_list _ _ refl))
]
conserved i (received j) b s h = same_list _ _ refl
conserved i (overflow_taken j) b s h = same_list _ _ refl
conserved i (closed j) b s h = same_list _ _ refl

pub received_by_cons :
    (i : ℕ) (op : Op) (ops : List Op) (b : Bus) (s : Subscription)
    → sub_at i b.subs ≡ some s
    → received_by i (op ∷ ops) b ≡ got_of i op s ++ received_by i ops (run_op op b)
unfolding received_by got_of
received_by_cons i (registered r) ops b s h = refl
received_by_cons i (published ev) ops b s h = refl
received_by_cons i (primed j) ops b s h = refl
received_by_cons i (delivered n) ops b s h = refl
received_by_cons i (overflow_taken j) ops b s h = refl
received_by_cons i (closed j) ops b s h = refl
received_by_cons i (received j) ops b s h = elim (Bool-cases (j == i)) [
  | inr other ↦ rw other refl
  | inl same ↦ rw (same, first_at, h) refl
]

pub overflow_seen_cons :
    (i : ℕ) (op : Op) (ops : List Op) (b : Bus) (s : Subscription)
    → sub_at i b.subs ≡ some s
    → overflow_seen i (op ∷ ops) b ≡ (seen_of i op s || overflow_seen i ops (run_op op b))
unfolding overflow_seen seen_of
overflow_seen_cons i (registered r) ops b s h = refl
overflow_seen_cons i (published ev) ops b s h = refl
overflow_seen_cons i (primed j) ops b s h = refl
overflow_seen_cons i (delivered n) ops b s h = refl
overflow_seen_cons i (received j) ops b s h = refl
overflow_seen_cons i (closed j) ops b s h = refl
overflow_seen_cons i (overflow_taken j) ops b s h = elim (Bool-cases (j == i)) [
  | inr other ↦ rw other refl
  | inl same ↦ rw (same, overflow_at, h) refl
]
