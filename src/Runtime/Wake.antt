-- ===== src/Runtime/Wake.antt =====
-- What a commit leads to: `NewCommitNotifier` of internal/runtime/notify.go.
use mathlib.Core.Option
use amplio.Common.{
  ℕ, zero, suc, ◌≡◌, refl, sym, ap, ◌∙◌, String, Bool, true, false, not, ◌&&◌, List, [], ◌∷◌,
  Option, none, some, arith, inl, inr, Option-cases,
}
use amplio.Event.{Event, tool_result}
use amplio.Db.Types.{is_input, classify}
use amplio.Db.Events.{is_env_notification}
use amplio.Session.Waiter.{Waiter, notify}
use amplio.Session.Registry.{
  Registry, Handle, new_registry, slot_of, update_handle, wake, notify_session, is_registered,
}
use amplio.Runtime.Runs.{instance_at, update_instance, get_run}
use amplio.Runtime.Manager.{
  World, Manager, notify_live, on_commit, session_status, finished_for_env, is_tool_result,
}

pub instance-update :
    (n : ℕ) (f : Registry → Registry) (xs : List Registry) (s : String)
    → is_registered s (instance_at n xs) ≡ true
    → instance_at n (update_instance n f xs) ≡ f (instance_at n xs)
unfolding instance_at update_instance is_registered slot_of new_registry
instance-update n f [] s h = absurd (cc h)
instance-update zero f (x ∷ xs) s h = refl
instance-update (suc n) f (x ∷ xs) s h = instance-update n f xs s h

update_instance-same :
    (n : ℕ) (xs : List Registry) → update_instance n (λ _. instance_at n xs) xs ≡ xs
unfolding instance_at update_instance
update_instance-same n [] = refl
update_instance-same zero (x ∷ xs) = refl
update_instance-same (suc n) (x ∷ xs) = ap (λ ys. x ∷ ys) (update_instance-same n xs)

notify-unregistered :
    (s : String) (reg : Registry)
    → is_registered s reg ≡ false
    → notify_session s reg ≡ (false, reg)
unfolding is_registered notify_session
notify-unregistered s reg h = ground arith

tool_result_is_no_input : (w : World) (e : Event) → is_tool_result w e ≡ true → is_input e ≡ false
unfolding is_input classify
tool_result_is_no_input w (tool_result t) h = refl
tool_result_is_no_input w e h = ground arith

-- The session has a slot in the registry that the map holds for its run.
unfoldable pub is_live : String → String → Manager → Bool
is_live run s m = elim (get_run run m.runs) [
  | none ↦ false
  | some n ↦ is_registered s (instance_at n m.runs.instances)
]

module _ (w : World) (run s : String) (e : Event) (m : Manager) where
  -- Whether a commit may start a goroutine: it is input, and not a notification of the environment
  -- to a finished session.
  abbrev pub revives : Bool
  revives =
      is_input e && not (is_env_notification e && finished_for_env w (session_status w run s m))

  notify_cold : is_live run s m ≡ false → notify_live w run s m ≡ (false, m)
  unfolding is_live notify_live notify_session is_registered
  notify_cold cold = elim (Option-cases (get_run run m.runs)) [
    | inl lost ↦ rw (notify_live, lost) refl
    | inr (n, found) ↦
        let reg = instance_at n m.runs.instances in
        rw (notify_live, found, notify-unregistered s reg (rw (is_live, found) at cold))
          (ap (λ xs. (false, record m { runs = record m.runs { instances = xs } }))
            (update_instance-same n m.runs.instances))
  ]

unfoldable pub handle_at : ℕ → List Handle → Option Handle
handle_at n [] = none
handle_at zero (h ∷ hs) = some h
handle_at (suc n) (h ∷ hs) = handle_at n hs

handle-update :
    (n : ℕ) (f : Handle → Handle) (hs : List Handle)
    → handle_at n (update_handle n f hs) ≡ Option.map f (handle_at n hs)
unfolding handle_at update_handle
handle-update n f [] = refl
handle-update zero f (h ∷ hs) = refl
handle-update (suc n) f (h ∷ hs) = handle-update n f hs

-- The waiter of a session in a registry, and of a live session.
unfoldable pub waiter_in : String → Registry → Option Waiter
waiter_in s reg = elim (slot_of s reg.slots) [
  | none ↦ none
  | some h ↦ Option.map (λ (x : Handle). x.waiter) (handle_at h reg.handles)
]

unfoldable pub waiter_of : String → String → Manager → Option Waiter
waiter_of run s m = elim (get_run run m.runs) [
  | none ↦ none
  | some n ↦ waiter_in s (instance_at n m.runs.instances)
]

wake-maps :
    (o : Option Handle)
    → Option.map (λ (x : Handle). x.waiter) (Option.map wake o)
      ≡ Option.map notify (Option.map (λ (x : Handle). x.waiter) o)
wake-maps none = refl
wake-maps (some h) = refl

notify-found :
    (s : String) (reg : Registry) {n : ℕ}
    → slot_of s reg.slots ≡ some n
    → notify_session s reg ≡ (true, record reg { handles = update_handle n wake reg.handles })
unfolding notify_session
notify-found s reg found = rw (notify_session, found) refl

waiter_in-found :
    (s : String) (reg : Registry) {n : ℕ}
    → slot_of s reg.slots ≡ some n
    → waiter_in s reg ≡ Option.map (λ (x : Handle). x.waiter) (handle_at n reg.handles)
unfolding waiter_in
waiter_in-found s reg found = rw (waiter_in, found) refl

waiter_of-found :
    (run s : String) (m : Manager) {n : ℕ}
    → get_run run m.runs ≡ some n
    → waiter_of run s m ≡ waiter_in s (instance_at n m.runs.instances)
unfolding waiter_of
waiter_of-found run s m found = rw (waiter_of, found) refl

notify-registered :
    (s : String) (reg : Registry)
    → is_registered s reg ≡ true
    → ((notify_session s reg).0 ≡ true)
      × (waiter_in s (notify_session s reg).1 ≡ Option.map notify (waiter_in s reg))
unfolding is_registered
notify-registered s reg h = elim (Option-cases (slot_of s reg.slots)) [
  | inl lost ↦ absurd (cc (rw (is_registered, lost) at h))
  | inr (n, found) ↦
      let woken = record reg { handles = update_handle n wake reg.handles } in
      rw (notify-found s reg found) (
        refl,
        waiter_in-found s woken found
            ∙ ap (Option.map _) (handle-update n wake reg.handles)
            ∙ wake-maps (handle_at n reg.handles)
            ∙ ap (Option.map notify) (sym (waiter_in-found s reg found)),
      )
]

module _ (w : World) (run s : String) (e : Event) (m : Manager) where
  abbrev woken : ℕ → Manager
  woken n = record m {
    runs = record m.runs {
      instances =
          update_instance n (λ _. (notify_session s (instance_at n m.runs.instances)).1)
            m.runs.instances;
    };
  }

  notify_live-found :
      {n : ℕ}
      → get_run run m.runs ≡ some n
      → is_registered s (instance_at n m.runs.instances) ≡ true
      → notify_live w run s m ≡ (true, woken n)
  unfolding notify_live
  notify_live-found {n} found here =
      rw (notify_live, found, (notify-registered s (instance_at n m.runs.instances) here).0) refl

  on_commit-live :
      {n : ℕ}
      → get_run run m.runs ≡ some n
      → is_registered s (instance_at n m.runs.instances) ≡ true
      → is_tool_result w e ≡ false
      → on_commit w run s e m ≡ woken n
  unfolding on_commit
  on_commit-live found here other = rw (other, notify_live-found found here)

  -- A commit to a live session, of any event but a tool result, moves the counter of the session's
  -- waiter, starts no goroutine and writes nothing.
  pub live_commit :
      is_live run s m ≡ true
      → is_tool_result w e ≡ false
      → (waiter_of run s (on_commit w run s e m) ≡ Option.map notify (waiter_of run s m))
        × ((on_commit w run s e m).launched ≡ m.launched)
        × ((on_commit w run s e m).db ≡ m.db)
  unfolding is_live get_run
  live_commit live other = elim (Option-cases (get_run run m.runs)) [
    | inl lost ↦ absurd (cc (rw (is_live, lost) at live))
    | inr (n, found) ↦
        let reg = instance_at n m.runs.instances in
        let here : is_registered s reg ≡ true = rw (is_live, found) at live in
        rw (on_commit-live found here other) (
          waiter_of-found run s (woken n) found
              ∙ ap (waiter_in s)
                  (instance-update n (λ _. (notify_session s reg).1) m.runs.instances s here)
              ∙ (notify-registered s reg here).1
              ∙ ap (Option.map notify) (sym (waiter_of-found run s m found)),
          refl,
          refl,
        )
  ]
