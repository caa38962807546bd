-- ===== src/Runtime/Manager.antt =====
-- `NewCommitNotifier` of internal/runtime/notify.go, and `RespawnSession` and `RecoverRun` of
-- internal/runtime/manager.go.
use amplio.Common.{
  ℕ, ◌+◌, String, Bool, true, false, not, ◌&&◌, ◌||◌, List, [], ◌∷◌, ◌++◌, Option, none, some,
  str_eq, if◌then◌else◌, filter,
}
use amplio.Event.{
  Event, Status, concluded, crashed, cancelled, tool_result, recover, is_no_tool_assistant,
}
use amplio.Db.Types.{SessionRecord, is_input, is_spine}
use amplio.Db.State.{Store, Driver, Error, Result, ok, err}
use amplio.Db.Sessions.{get_session, list_sessions}
use amplio.Db.Events.{append_event, get_events, is_env_notification, last_row}
use amplio.Session.Registry.{register_and_context, release, notify_session, is_registered}
use amplio.Runtime.Runs.{
  Runs, instance_at, update_instance, get_run, get_or_create, remove_if_empty,
}

-- What the manager's code takes from elsewhere: the database driver, the rows of the Run table,
-- and whether the pre-launch work of a session succeeds: its agent type is registered, its
-- provider resolves and its workspace is valid, and the factory builds the agent.
pub record World : Type 0 where
  pub driver : Driver
  pub has_run : String → Bool
  pub agent_known : String → Bool
  pub launchable : SessionRecord → Bool
  pub buildable : SessionRecord → Bool
  pub resumed_text : ℕ → String

-- A goroutine: its run, its session, the registry instance and the handle it was launched with.
pub record Launch : Type 0 where
  pub run : String
  pub session : String
  pub instance_id : ℕ
  pub handle : ℕ

-- `launched` lists the goroutines in the order of their start; `allocators` the runs that have a
-- name allocator.
pub record Manager : Type 0 where
  pub db : Store
  pub runs : Runs
  pub allocators : List String
  pub launched : List Launch

-- The deferred clean-up of a slot: release, and drop the run's registry if it is empty now.
unfoldable pub give_back : String → String → ℕ → ℕ → Manager → Manager
give_back run s n h m =
    let freed = record m.runs { instances = update_instance n (release s h) m.runs.instances } in
    let (removed, rr) = remove_if_empty run freed in
    record m {
      runs = rr;
      allocators = if removed then filter (λ a. not (str_eq a run)) m.allocators else m.allocators;
    }

-- `allocatorFor`
unfoldable pub allocator_for : String → Manager → Manager
allocator_for run m = record m { allocators = run ∷ filter (λ a. not (str_eq a run)) m.allocators }

abbrev started : Launch → Manager → Manager
started l m = record m { launched = m.launched ++ l ∷ [] }

module _ (w : World) where
  -- The slot is claimed: launch the goroutine, or give the slot back. What the provider and the
  -- workspace answer is that of this attempt; another attempt has another `World`.
  unfoldable pub launch_claimed : SessionRecord → String → String → ℕ → ℕ → Manager → Manager
  unfolding give_back allocator_for
  launch_claimed x run s n h m =
      if w.agent_known x.agent_type && w.launchable x
      then (let m' = allocator_for run m in
          if w.buildable x
          then started (record { run = run; session = s; instance_id = n; handle = h }) m'
          else give_back run s n h m')
      else give_back run s n h m

  -- `GetOrCreate`, then `RegisterAndContext` on the instance.
  unfoldable pub claim : SessionRecord → String → String → Manager → Manager
  unfolding launch_claimed
  claim x run s m =
      let (n, rr) = get_or_create run m.runs in
      let (slot, reg) = register_and_context false s (instance_at n rr.instances) in
      let m' = record m {
        runs = record rr { instances = update_instance n (λ _. reg) rr.instances };
      } in
      elim slot [ none ↦ m' | some h ↦ launch_claimed x run s n h m' ]

  -- `RespawnSession`
  unfoldable pub respawn_session : String → String → Manager → Manager
  unfolding claim
  respawn_session run s m = elim (get_session w.driver run s m.db).0 [
    | err e ↦ m
    | ok x ↦ if w.has_run run then claim x run s m else m
  ]

  -- `envUnrevivableStatuses`
  unfoldable pub is_unrevivable : Status → Bool
  is_unrevivable concluded = true
  is_unrevivable cancelled = true
  is_unrevivable crashed = true
  is_unrevivable _ = false

  -- `SessionStatus`
  unfoldable pub session_status : String → String → Manager → Option Status
  session_status run s m = elim (get_session w.driver run s m.db).0 [
    | err e ↦ none
    | ok x ↦ some x.status
  ]

  abbrev pub is_tool_result : Event → Bool
  is_tool_result (tool_result t) = true
  is_tool_result _ = false

  abbrev pub finished_for_env : Option Status → Bool
  finished_for_env none = false
  finished_for_env (some status) = is_unrevivable status

  -- `reg != nil && reg.Notify(sessionID)`
  unfoldable pub notify_live : String → String → Manager → Bool × Manager
  notify_live run s m = elim (get_run run m.runs) [
    | none ↦ (false, m)
    | some n ↦
        let (live, reg) = notify_session s (instance_at n m.runs.instances) in
        (
          live,
          record m {
            runs = record m.runs { instances = update_instance n (λ _. reg) m.runs.instances };
          },
        )
  ]

  -- What a commit does to a session that is not live.
  unfoldable pub revive : String → String → Event → Manager → Manager
  revive run s e m =
      if not (is_input e)
      then m
      else if is_env_notification e && finished_for_env (session_status run s m)
      then m
      else respawn_session run s m

  -- The listener of `NewCommitNotifier`.
  unfoldable pub on_commit : String → String → Event → Manager → Manager
  unfolding notify_live revive
  on_commit run s e m =
      if is_tool_result e
      then m
      else let (live, m') = notify_live run s m in if live then m' else revive run s e m'

  -- `streamAtRest`
  unfoldable pub stream_at_rest : String → String → Manager → Result Bool
  stream_at_rest run s m =
      elim (get_events w.driver run s
        (record { current_context_only = true; start_step = none; end_step = none }) m.db).0 [
          | err e ↦ err e
          | ok rows ↦ elim (last_row rows) [
            | none ↦ ok false
            | some x ↦ ok (is_no_tool_assistant x.event)
          ]
        ]

  -- One commit of `AppendEvent`, with the listener that the store then calls.
  unfoldable pub append_and_notify : String → String → Event → Manager → Result ℕ × Manager
  append_and_notify run s e m =
      let (result, d) = append_event w.driver run s e m.db in
      let m' = record m { db = d } in
      elim result [ err x ↦ (err x, m') | ok id ↦ (ok id, on_commit run s e m') ]

  -- A session of the active spine that is not live: respawned at rest, or woken by a marker.
  unfoldable pub recover_session : String → SessionRecord → Manager → Result (Unit {0}) × Manager
  recover_session run x m = elim (stream_at_rest run x.session_id m) [
    | err e ↦ (err e, m)
    | ok true ↦ (ok tt, respawn_session run x.session_id m)
    | ok false ↦
        let (result, m') =
          append_and_notify run x.session_id (recover (w.resumed_text m.db.clock)) m in
        elim result [ err e ↦ (err e, m') | ok id ↦ (ok tt, m') ]
  ]

  -- The loop of `RecoverRun` over the sessions read at its start; `n` is the registry instance.
  -- Returns how many sessions it revived, and stops at the first error.
  unfoldable pub recover_each :
      String → ℕ → List SessionRecord → ℕ → Manager → Option Error × (ℕ × Manager)
  recover_each run n [] revived m = (none, (revived, m))
  recover_each run n (x ∷ xs) revived m =
      let skip = recover_each run n xs revived m in
      let more : Option Error × (ℕ × Manager) =
        let (result, m') = recover_session run x m in
        let rest = recover_each run n xs (revived + 1) m' in
        elim result [ err e ↦ (some e, (revived, m')) | ok _ ↦ rest ] in
      if is_registered x.session_id (instance_at n m.runs.instances)
        || (not (is_spine x) || not (w.agent_known x.agent_type))
      then skip
      else more

  -- `RecoverRun`
  unfoldable pub recover_run : String → Manager → Option Error × (ℕ × Manager)
  unfolding recover_each
  recover_run run m = elim (list_sessions w.driver run m.db).0 [
    | err e ↦ (some e, (0, m))
    | ok xs ↦
        let (n, rr) = get_or_create run m.runs in recover_each run n xs 0 (record m { runs = rr })
  ]
