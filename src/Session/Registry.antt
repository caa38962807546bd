-- ===== src/Session/Registry.antt =====
-- `Registry` and `Handle` of internal/session/registry.go. A method runs under the lock, so it is
-- one step. `Interrupt` and `Notify` read the slot under it and then touch the handle.
use amplio.Common.{
  ℕ, zero, suc, String, Bool, true, false, List, [], ◌∷◌, ◌++◌, Option, none, some, str_eq,
  if◌then◌else◌, length, map,
}
use amplio.Event.{is_nil}
use amplio.Session.Waiter.{Waiter, new_waiter, notify}

-- `cancelled`: the context whose cancel func the handle holds is done. It stays so.
pub record Handle : Type 0 where
  pub waiter : Waiter
  pub cancelled : Bool

-- A handle is a pointer: its number in `handles`. `slots` is the map from session ids.
pub record Registry : Type 0 where
  pub slots : List (String × ℕ)
  pub handles : List Handle

unfoldable pub new_registry : Registry
new_registry = record { slots = []; handles = [] }

unfoldable pub slot_of : String → List (String × ℕ) → Option ℕ
slot_of s [] = none
slot_of s ((k, h) ∷ rest) = if str_eq k s then some h else slot_of s rest

unfoldable pub delete_slot : String → List (String × ℕ) → List (String × ℕ)
delete_slot s [] = []
delete_slot s ((k, h) ∷ rest) =
    let more = delete_slot s rest in if str_eq k s then more else (k, h) ∷ more

unfoldable pub update_handle : ℕ → (Handle → Handle) → List Handle → List Handle
update_handle n f [] = []
update_handle zero f (h ∷ hs) = f h ∷ hs
update_handle (suc n) f (h ∷ hs) = h ∷ update_handle n f hs

abbrev pub cancel : Handle → Handle
cancel h = record h { cancelled = true }

abbrev pub wake : Handle → Handle
wake h = record h { waiter = notify h.waiter }

-- `NewHandle` and its place in memory. The context is done already if its parent is.
abbrev fresh_handle : Bool → Handle
fresh_handle parent_done = record { waiter = new_waiter; cancelled = parent_done }

-- `Register`: false is the error "already registered". The handle was made by the caller.
unfoldable pub register : String → ℕ → Registry → Bool × Registry
register s h reg = elim (slot_of s reg.slots) [
  | some taken ↦ (false, reg)
  | none ↦ (true, record reg { slots = (s, h) ∷ reg.slots })
]

-- `RegisterAndContext`: the handle, or `none` when the slot is taken and nothing is done.
unfoldable pub register_and_context : Bool → String → Registry → Option ℕ × Registry
register_and_context parent_done s reg = elim (slot_of s reg.slots) [
  | some taken ↦ (none, reg)
  | none ↦ (
    some (length reg.handles),
    record {
      slots = (s, length reg.handles) ∷ reg.slots;
      handles = reg.handles ++ fresh_handle parent_done ∷ [];
    },
  )
]

-- `Unregister`
unfoldable pub unregister : String → Registry → Registry
unregister s reg = record reg { slots = delete_slot s reg.slots }

-- The `release` that `RegisterAndContext` returns.
unfoldable pub release : String → ℕ → Registry → Registry
unfolding unregister
release s h reg = unregister s (record reg { handles = update_handle h cancel reg.handles })

-- `Notify`: whether the session was registered.
unfoldable pub notify_session : String → Registry → Bool × Registry
notify_session s reg = elim (slot_of s reg.slots) [
  | none ↦ (false, reg)
  | some h ↦ (true, record reg { handles = update_handle h wake reg.handles })
]

-- `Interrupt`
unfoldable pub interrupt : String → Registry → Registry
interrupt s reg = elim (slot_of s reg.slots) [
  | none ↦ reg
  | some h ↦ record reg { handles = update_handle h cancel reg.handles }
]

unfoldable pub cancel_slots : List (String × ℕ) → List Handle → List Handle
cancel_slots [] hs = hs
cancel_slots ((k, h) ∷ rest) hs = cancel_slots rest (update_handle h cancel hs)

-- `CancelAll`
unfoldable pub cancel_all : Registry → Registry
unfolding cancel_slots
cancel_all reg = record reg { handles = cancel_slots reg.slots reg.handles }

-- `IsRegistered`
unfoldable pub is_registered : String → Registry → Bool
is_registered s reg = elim (slot_of s reg.slots) [ none ↦ false | some h ↦ true ]

-- `IsEmpty`
unfoldable pub is_empty : Registry → Bool
is_empty reg = is_nil reg.slots

-- `SessionIDs`, in the order of registration: the map's order is arbitrary.
unfoldable pub session_ids : Registry → List String
session_ids reg = map (λ slot. slot.0) reg.slots
