-- ===== src/Session/Cancel.antt =====
-- `CancelSession` of internal/session/registry.go: the recursive cancel of a session tree.
use amplio.Common.{true, false, ℕ, zero, suc, String, ◌<>◌, List, [], ◌∷◌, ◌++◌, Option, none, some}
use amplio.Event.{cancelled, system, marker_cancelled}
use amplio.Db.Types.{SessionRecord, is_terminal}
use amplio.Db.State.{Store, Driver, Error, Result, ok, err}
use amplio.Db.Sessions.{get_session, get_child_sessions}
use amplio.Db.Terminate.{terminate}
use amplio.Session.Registry.{Registry, interrupt}

-- What a cancel reports, joined: nothing means success. `out_of_fuel` is the model's own.
pub data CancelError : Type 0 where
  store_error : String → Error → CancelError
  out_of_fuel : CancelError

-- The database, the registry (`nil` where the caller has none), and what the cancel reports.
pub record Cancelled : Type 0 where
  pub db : Store
  pub registry : Option Registry
  pub errors : List CancelError

abbrev interrupt_if : Option Registry → String → Option Registry
interrupt_if none s = none
interrupt_if (some reg) s = some (interrupt s reg)

-- The loop over the children: every one is tried.
unfoldable pub cancel_each :
    (String → Option Registry → Store → Cancelled)
    → List SessionRecord
    → Option Registry
    → Store
    → Cancelled
cancel_each one [] reg d = record { db = d; registry = reg; errors = [] }
cancel_each one (x ∷ xs) reg d =
    let first = one x.session_id reg d in
    let rest = cancel_each one xs first.registry first.db in
    record rest { errors = first.errors ++ rest.errors }

-- The children, or the error of their listing.
abbrev pub listed : String → Result (List SessionRecord) → List SessionRecord × List CancelError
listed s (ok xs) = (xs, [])
listed s (err e) = ([], store_error s e ∷ [])

-- After the session's own terminal write: the cascade, and last the interrupt.
unfoldable pub cascade :
    Driver
    → (String → Option Registry → Store → Cancelled)
    → String
    → String
    → Option Registry
    → Store
    → Cancelled
cascade v one r s reg d =
    let (children, failed) = listed s (get_child_sessions v r s d).0 in
    let below = cancel_each one children reg d in
    record below { registry = interrupt_if below.registry s; errors = failed ++ below.errors }

-- The terminal write; if it fails the goroutine is left running.
unfoldable pub write_cancel :
    Driver
    → (String → Option Registry → Store → Cancelled)
    → String
    → String
    → String
    → String
    → Option Registry
    → Store
    → Cancelled
write_cancel v one r s parent reason reg d =
    let marker = system reason marker_cancelled in
    let (result, d') = terminate r s v parent cancelled reason (some marker) none d in
    elim result [
      | ok _ ↦ cascade v one r s reg d'
      | err e ↦ record { db = d'; registry = reg; errors = store_error s e ∷ [] }
    ]

unfoldable pub cancel_session :
    Driver → ℕ → String → String → String → Option Registry → Store → Cancelled
cancel_session v zero r s reason reg d = record {
  db = d;
  registry = reg;
  errors = out_of_fuel ∷ [];
}
cancel_session v (suc k) r s reason reg d = elim (get_session v r s d).0 [
  | err e ↦ record { db = d; registry = reg; errors = store_error s e ∷ [] }
  | ok x ↦ elim (is_terminal x.status) [
    | true ↦ record { db = d; registry = reg; errors = [] }
    | false ↦
        write_cancel v (λ child. cancel_session v k r child ("parent " <> s <> " cancelled")) r s
          x.parent_id reason reg d
  ]
]
