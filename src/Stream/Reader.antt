-- ===== src/Stream/Reader.antt =====
-- What the reader of a stream receives over operations of the bus, and what it is owed.
use amplio.Common.{
  ℕ, Bool, false, ◌||◌, not, none, some, List, [], ◌∷◌, ◌++◌, ◌==◌, ltb, length, if◌then◌else◌,
}
use amplio.Stream.Bus.{
  RunEvent, Subscription, Bus, sub_at, refetch_all, is_target, first_event, Op, registered,
  published, primed, delivered, received, overflow_taken, closed, run_op,
}

unfoldable pub run_ops : List Op → Bus → Bus
unfolding run_op
run_ops [] b = b
run_ops (op ∷ ops) b = run_ops ops (run_op op b)

-- The deliveries to one subscription that are left.
abbrev pub pending : ℕ → List (ℕ × RunEvent) → List RunEvent
pending i [] = []
pending i ((j, ev) ∷ ds) = let rest = pending i ds in if j == i then ev ∷ rest else rest

abbrev pub first_at : ℕ → List Subscription → List RunEvent
first_at i subs = elim (sub_at i subs) [ none ↦ [] | some s ↦ first_event s ]

abbrev pub overflow_at : ℕ → List Subscription → Bool
overflow_at i subs = elim (sub_at i subs) [ none ↦ false | some s ↦ s.overflow ]

-- What the reader of a subscription receives.
unfoldable pub received_by : ℕ → List Op → Bus → List RunEvent
unfolding run_op
received_by i [] b = []
received_by i (received j ∷ ops) b =
    let rest = received_by i ops (run_op (received j) b) in
    if j == i then first_at i b.subs ++ rest else rest
received_by i (op ∷ ops) b = received_by i ops (run_op op b)

-- Whether `TakeOverflow` of a subscription returns true at some time.
unfoldable pub overflow_seen : ℕ → List Op → Bus → Bool
unfolding run_op
overflow_seen i [] b = false
overflow_seen i (overflow_taken j ∷ ops) b =
    let rest = overflow_seen i ops (run_op (overflow_taken j) b) in
    if j == i then overflow_at i b.subs || rest else rest
overflow_seen i (op ∷ ops) b = overflow_seen i ops (run_op op b)

-- The marker that a send of the first event puts into the channel.
abbrev pub marker : ℕ → Subscription → List RunEvent
marker depth s =
    if s.primed || not (ltb (length s.queue) depth) then [] else refetch_all s.run_id ∷ []

-- The events that one operation makes due to a subscription: the marker, when it is sent, and an
-- event, when its `Publish` finds the subscription among its targets.
abbrev pub owed_of : ℕ → Op → ℕ → Subscription → List RunEvent
owed_of i (published ev) depth s = if is_target ev s then ev ∷ [] else []
owed_of i (primed j) depth s = if j == i then marker depth s else []
owed_of i (registered r) depth s = []
owed_of i (delivered n) depth s = []
owed_of i (received j) depth s = []
owed_of i (overflow_taken j) depth s = []
owed_of i (closed j) depth s = []

abbrev pub owed_at : ℕ → Op → Bus → List RunEvent
owed_at i op b = elim (sub_at i b.subs) [ none ↦ [] | some s ↦ owed_of i op b.depth s ]

unfoldable pub owed_by : ℕ → List Op → Bus → List RunEvent
unfolding run_op
owed_by i [] b = []
owed_by i (op ∷ ops) b = owed_at i op b ++ owed_by i ops (run_op op b)
