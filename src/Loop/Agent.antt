-- ===== src/Loop/Agent.antt =====
-- The state of an `EventLoopAgent` (internal/agent/eventloop/eventloop.go), its failures, and how
-- a session ends: `conclude`, `cascadeCancelChildren`, `recordFailure`.
use amplio.Common.{
  ℕ, suc, String, ◌<>◌, Bool, true, false, List, [], Option, none, some, str_eq, if◌then◌else◌,
  length,
}
use amplio.Event.{concluded, crashed, system, marker_error}
use amplio.Db.Types.{SessionRecord}
use amplio.Db.State.{Store, Driver, Error, Result, ok, err}
use amplio.Db.Sessions.{get_child_sessions}
use amplio.Db.Terminate.{terminate}
use amplio.Session.Registry.{Registry}
use amplio.Session.Cancel.{cancel_session, cancel_each}
use amplio.Loop.Text.{trim_space}
use amplio.Common.{Codes, codes}

-- `Config`, as far as the loop reads it.
pub record Config : Type 0 where
  pub run_id : String
  pub session_id : String
  pub parent_id : String
  pub interactive : Bool

-- Why a session fails. `provider_refused` and `empty_result` are the errors that wrap
-- `errProviderRefused` and `errEmptyResult`.
pub data Failure : Type 0 where
  store_failure : Error → Failure
  provider_refused : String → String → Codes → Failure
  output_limited : String → Failure
  empty_result : String → Failure
  llm_failed : String → Failure

-- `call_step` is none outside a turn (`-1` in the source).
pub record Agent : Type 0 where
  pub db : Store
  pub registry : Option Registry
  pub call_step : Option ℕ
  pub conclude_nudges : ℕ
  pub output_limit_nudges : ℕ

abbrev pub max_conclude_nudges : ℕ
max_conclude_nudges = 2

abbrev pub max_output_limit_nudges : ℕ
max_output_limit_nudges = 2

abbrev or_unspecified : String → String
or_unspecified category = if str_eq category "" then "unspecified" else category

-- `refusalError`
unfoldable pub refusal_error : String → String → String → Failure
refusal_error stop_reason category explanation =
    provider_refused stop_reason (or_unspecified category) (trim_space (codes explanation))

-- errors.Is(err, db.ErrStore)
unfoldable pub is_store_failure : Failure → Bool
is_store_failure (store_failure e) = true
is_store_failure _ = false

-- What every part of the loop is given: the database driver, the text of a failure, the agent's
-- configuration.
module _ (v : Driver) (render : Failure → String) (cfg : Config) where
  -- Enough for every cascade: one more than there are sessions.
  abbrev cancel_fuel : Store → ℕ
  cancel_fuel d = suc (length d.sessions)

  abbrev children_of : Result (List SessionRecord) → List SessionRecord
  children_of (ok xs) = xs
  children_of (err e) = []

  -- `cascadeCancelChildren`: a child that cannot be cancelled is only logged.
  unfoldable pub cascade_cancel_children : String → Agent → Agent
  cascade_cancel_children reason a =
      let children = children_of (get_child_sessions v cfg.run_id cfg.session_id a.db).0 in
      let done =
        cancel_each (λ child. cancel_session v (cancel_fuel a.db) cfg.run_id child reason) children
          a.registry a.db in
      record a { db = done.db; registry = done.registry }

  -- `conclude`
  unfoldable pub conclude : String → Agent → Option Failure × Agent
  conclude content a =
      let a' = cascade_cancel_children ("parent " <> cfg.session_id <> " concluded") a in
      let (result, d) =
        terminate cfg.run_id cfg.session_id v cfg.parent_id concluded content none none a'.db in
      elim result [
        | ok _ ↦ (none, record a' { db = d })
        | err e ↦ (some (store_failure e), record a' { db = d })
      ]

  -- `recordFailure`: what it returns, and the crash that it records.
  unfoldable pub record_failure : Bool → Failure → Agent → Option Failure × Agent
  record_failure ctx_done f a =
      if ctx_done then (none, a) else if is_store_failure f then (some f, a) else (
        some f,
        record a {
          db =
              (terminate cfg.run_id cfg.session_id v cfg.parent_id crashed (render f)
                (some (system (render f) marker_error)) a.call_step a.db).1;
        },
      )
