-- ===== src/Examples/Stream.antt =====
-- A bus with two streams, an allocator that is asked three times, and two goroutines at a lock.

use mathlib.Core.List.Memᴰ
use amplio.Common.{ℕ, ◌≡◌, refl, true, false, String, none, some, List, [], ◌∷◌, ◌++◌, arith}
use mathlib.Core.List.{Perm}
use amplio.Stream.Bus.{
  RunEvent, Subscription, Op, registered, published, primed, delivered, received, overflow_taken,
  closed, signal, refetch_all, new_bus, register, prime, sub_at, run_op, deliver, deliver_one,
  publish,
}
use amplio.Stream.Reader.{run_ops, pending, received_by, overflow_seen, owed_by}
use amplio.Stream.Lossless.{no_silent_loss}
use amplio.Workspace.Locks.{LinkLocks, new_link_locks, enter, acquire, Step, IsReachable}
use amplio.Workspace.Exclusive.{link_locks_exclude}
use amplio.Session.Nickname.{picked, pick_unique, free_names}
use amplio.Session.Allocator.{new_name_allocator}
use amplio.Session.Fresh.{Call, names_of, seeds, all_fresh, names_fresh}
use amplio.Session.Picks.{pick_unique_picks}

abbrev bump : String → RunEvent
bump run = signal "session_bump" run

-- The stream opens; a publisher finds it, and delivers before the first event is sent; the reader
-- takes one event; and another publisher delivers after the stream is closed.
abbrev ops : List Op
ops =
    published (bump "a")
    ∷ delivered 0
    ∷ primed 0
    ∷ registered ""
    ∷ published (bump "b")
    ∷ received 0
    ∷ published (bump "")
    ∷ overflow_taken 0
    ∷ closed 0
    ∷ delivered 1
    ∷ published (bump "a")
    ∷ []

abbrev waiting : Subscription
waiting = record {
  run_id = "a";
  queue = refetch_all "a" ∷ bump "" ∷ [];
  overflow = false;
  attached = false;
  primed = true;
}

ops_lead_to_waiting : sub_at 0 (run_ops ops (register "a" new_bus)).subs ≡ some waiting
unfolding run_ops run_op register prime publish deliver_one deliver new_bus
ops_lead_to_waiting = refl

no_overflow : overflow_seen 0 ops (register "a" new_bus) ≡ false
unfolding overflow_seen run_op register prime publish deliver_one deliver new_bus
no_overflow = refl

-- What is owed: the first event, and the two that found the stream open.
all_owed : owed_by 0 ops (register "a" new_bus) ≡ bump "a" ∷ refetch_all "a" ∷ bump "" ∷ []
unfolding owed_by run_op register prime publish deliver_one deliver new_bus
all_owed = refl

no_silent_loss_example :
    Perm
      (received_by 0 ops (register "a" new_bus)
        ++ (waiting.queue ++ pending 0 (run_ops ops (register "a" new_bus)).in_flight))
      (owed_by 0 ops (register "a" new_bus))
unfolding new_bus overflow_seen
no_silent_loss_example =
    no_silent_loss "a" ops new_bus 0 waiting refl refl ops_lead_to_waiting no_overflow

-- A source that always gives zero.
abbrev zeros : ℕ → ℕ → ℕ
zeros k n = 0

abbrev calls : List Call
calls =
    record { sessions = none; int_n = zeros }
    ∷ record { sessions = some ("main-agent" ∷ "bold-owl" ∷ []); int_n = zeros }
    ∷ record { sessions = none; int_n = zeros }
    ∷ []

names_fresh_example : all_fresh (seeds calls) (names_of calls new_name_allocator) ≡ true
names_fresh_example = names_fresh calls

abbrev pool : List String
pool = "bold" ∷ "calm" ∷ []

one_left : free_names ("bold-owl" ∷ []) pool ("owl" ∷ []) ≡ "calm-owl" ∷ []
unfolding free_names
one_left = refl

pick_unique_picks_example :
    (name : String) × (pick_unique zeros pool ("owl" ∷ []) ("bold-owl" ∷ []) ≡ picked name)
unfolding free_names
pick_unique_picks_example =
    pick_unique_picks zeros (λ k n h. h) pool ("owl" ∷ []) ("bold-owl" ∷ []) (omega arith)
      (omega arith) "calm" "owl" (Memᴰ.tail (Memᴰ.head refl)) (Memᴰ.head refl) refl

-- Two goroutines come to the lock of a repository, and one of them gets it.
abbrev one_holds : LinkLocks
one_holds = acquire 0 (enter "repo" (enter "repo" new_link_locks))

one_holds-IsReachable : IsReachable one_holds
unfolding acquire enter new_link_locks
one_holds-IsReachable =
    IsReachable.after
      (IsReachable.after (IsReachable.after IsReachable.start (Step.enters "repo" new_link_locks))
        (Step.enters "repo" (enter "repo" new_link_locks)))
      (Step.acquires 0 (enter "repo" (enter "repo" new_link_locks)) (omega arith) refl)

held_now : (one_holds.lock_at 0).held ≡ true
unfolding acquire enter new_link_locks
held_now = refl

link_locks_exclude_example :
    (◌≡◌ {A = ℕ} 0 0) × (one_holds.locks (one_holds.lock_at 0).key ≡ some 0)
link_locks_exclude_example =
    link_locks_exclude one_holds 0 0 one_holds-IsReachable held_now held_now refl
