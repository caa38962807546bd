-- ===== src/Session/Waiter.antt =====
-- `Waiter` of internal/session/registry.go: a counter, and a wait for its next change.
use amplio.Common.{
  ℕ, suc, zero, ◌+◌, ◌<◌, not, ◌≡◌, ◌≢◌, List, [], ◌∷◌, Option, none, some, arith, ◌==◌,
  if◌then◌else◌,
}
use Prim.Native.Nat.{◌%◌, ◌^◌}

-- The closed-and-replaced channel only wakes the waiters: `counter` is the whole state.
pub record Waiter : Type 0 where
  pub counter : ℕ

unfoldable pub new_waiter : Waiter
new_waiter = record { counter = 0 }

unfoldable pub snapshot : Waiter → ℕ
snapshot w = w.counter

-- `counter` is a uint64.
unfoldable pub notify : Waiter → Waiter
notify w = record { counter = (w.counter + 1) % 2 ^ 64 }

unfoldable pub notify_times : ℕ → Waiter → Waiter
notify_times zero w = w
notify_times (suc n) w = notify_times n (notify w)

-- What the `select` of one round receives. Before a timeout or a cancelled context is read off,
-- some notifies may slip in.
pub data Signal : Type 0 where
  notified : Signal
  timed_out : ℕ → Signal
  ctx_done : ℕ → Signal

-- How `waitAfter` returns: the counter at wake time, with or without the context's error.
pub data Wake : Type 0 where
  woke : ℕ → Wake
  interrupted : ℕ → Wake

-- `waitAfter`, over the signals in the order in which the rounds receive them. `none` means that
-- it still blocks when they are used up. Returns the waiter as the signals have left it.
unfoldable pub wait_after : Waiter → ℕ → List Signal → Option Wake × Waiter
wait_after w last [] = (if not (w.counter == last) then some (woke w.counter) else none, w)
wait_after w last (notified ∷ rest) =
    let next = wait_after (notify w) last rest in
    if not (w.counter == last) then (some (woke w.counter), w) else next
wait_after w last (timed_out k ∷ rest) =
    if not (w.counter == last)
    then (some (woke w.counter), w)
    else let w' = notify_times k w in (some (woke w'.counter), w')
wait_after w last (ctx_done k ∷ rest) =
    if not (w.counter == last)
    then (some (woke w.counter), w)
    else let w' = notify_times k w in (some (interrupted w'.counter), w')

counter-notify_times :
    (n : ℕ) (w : Waiter)
    → w.counter < 2 ^ 64
    → (notify_times n w).counter ≡ (w.counter + n) % 2 ^ 64
unfolding notify_times notify
counter-notify_times zero w h = omega arith
counter-notify_times (suc n) w h = omega (arith, counter-notify_times n (notify w) (omega arith))

wait_after-moved :
    (w : Waiter) (last : ℕ) (signals : List Signal)
    → w.counter ≢ last
    → wait_after w last signals ≡ (some (woke w.counter), w)
unfolding wait_after
wait_after-moved w last [] ne = ground arith
wait_after-moved w last (notified ∷ rest) ne = ground arith
wait_after-moved w last (timed_out k ∷ rest) ne = ground arith
wait_after-moved w last (ctx_done k ∷ rest) ne = ground arith

-- No wakeup is lost: when between one and 2^64 - 1 notifies came after the snapshot, even before
-- the wait began, `waitAfter` returns at once, whatever signals come, and with another counter.
pub no_lost_wakeup :
    (w : Waiter) (n : ℕ) (signals : List Signal)
    → w.counter < 2 ^ 64
    → 0 < n
    → n < 2 ^ 64
    → (wait_after (notify_times n w) (snapshot w) signals
        ≡ (some (woke (notify_times n w).counter), notify_times n w))
      × ((notify_times n w).counter ≢ snapshot w)
unfolding snapshot
no_lost_wakeup w n signals h lo hi =
    let moved : (notify_times n w).counter ≢ w.counter =
      omega (arith, counter-notify_times n w h) in
    (wait_after-moved (notify_times n w) w.counter signals moved, moved)
