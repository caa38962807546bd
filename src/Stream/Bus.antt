-- ===== src/Stream/Bus.antt =====
-- The bus of internal/eventstream/bus.go, and the broadcaster of internal/eventstream/eventstream.go.
use amplio.Common.{
  ℕ, zero, suc, Bool, true, false, not, ◌&&◌, ◌||◌, String, str_eq, Option, none, some, List, [],
  ◌∷◌, ◌++◌, ltb, if◌then◌else◌, length,
}

-- `RunEvent`. The snapshot of the system's status is opaque.
pub record RunEvent : Type 0 where
  pub kind : String
  pub run_id : String
  pub session_id : String
  pub parent_id : String
  pub agent_type : String
  pub step : ℕ
  pub new_status : String
  pub obs_kind : String
  pub text_delta : String
  pub thoughts_delta : String
  pub reason : String
  pub ephemeral_kind : String
  pub active : Bool
  pub user : String
  pub numeric_id : ℕ
  pub alias : String
  pub sys_stat : Option String

abbrev pub default_queue_depth : ℕ
default_queue_depth = 1024

-- `Subscription`, with the events in its channel. `attached` says whether the bus still holds it, and
-- `primed` whether `Subscribe` has sent its first event.
pub record Subscription : Type 0 where
  pub run_id : String
  pub queue : List RunEvent
  pub overflow : Bool
  pub attached : Bool
  pub primed : Bool

-- `Bus`, with the subscriptions by the order of their opening, the closed ones too, and the deliveries
-- that calls of `Publish` still have to make: subscriptions by their places, and events.
pub record Bus : Type 0 where
  pub subs : List Subscription
  pub in_flight : List (ℕ × RunEvent)
  pub depth : ℕ

-- `NewBus`
unfoldable pub new_bus : Bus
new_bus = record { subs = []; in_flight = []; depth = default_queue_depth }

abbrev pub signal : String → String → RunEvent
signal kind run_id = record {
  kind = kind;
  run_id = run_id;
  session_id = "";
  parent_id = "";
  agent_type = "";
  step = 0;
  new_status = "";
  obs_kind = "";
  text_delta = "";
  thoughts_delta = "";
  reason = "";
  ephemeral_kind = "";
  active = false;
  user = "";
  numeric_id = 0;
  alias = "";
  sys_stat = none;
}

-- The event that a subscription begins with.
abbrev pub refetch_all : String → RunEvent
refetch_all run_id = record (signal "refetch_all" run_id) { reason = "subscribe" }

-- `deliver`: a full channel drops the event and sets the flag.
unfoldable pub deliver : ℕ → RunEvent → Subscription → Subscription
deliver depth ev s =
    if ltb (length s.queue) depth
    then record s { queue = s.queue ++ ev ∷ [] }
    else record s { overflow = true }

-- `Subscribe`, under the lock: from here on the subscription is a target.
unfoldable pub register : String → Bus → Bus
register run_id b = record b {
  subs =
      b.subs
      ++ record { run_id = run_id; queue = []; overflow = false; attached = true; primed = false }
        ∷ [];
}

-- `Subscribe`, after the lock: the send of the first event, which blocks as long as the channel is
-- full.
unfoldable pub prime : ℕ → Subscription → Subscription
prime depth s =
    if s.primed || not (ltb (length s.queue) depth)
    then s
    else record s { queue = s.queue ++ refetch_all s.run_id ∷ []; primed = true }

-- Whether `Publish` takes the subscription for a target.
abbrev pub is_target : RunEvent → Subscription → Bool
is_target ev s =
    s.attached && (str_eq s.run_id "" || (str_eq ev.run_id "" || str_eq s.run_id ev.run_id))

-- The targets of an event, by their places from `k` on.
abbrev pub targets : RunEvent → ℕ → List Subscription → List (ℕ × RunEvent)
targets ev k [] = []
targets ev k (s ∷ subs) =
    let rest = targets ev (suc k) subs in if is_target ev s then (k, ev) ∷ rest else rest

-- `Publish`, under the lock: the snapshot of its targets.
unfoldable pub publish : RunEvent → Bus → Bus
publish ev b = record b { in_flight = b.in_flight ++ targets ev 0 b.subs }

abbrev pub sub_at : ℕ → List Subscription → Option Subscription
sub_at i [] = none
sub_at zero (s ∷ subs) = some s
sub_at (suc i) (s ∷ subs) = sub_at i subs

abbrev pub update_at : ℕ → (Subscription → Subscription) → List Subscription → List Subscription
update_at i f [] = []
update_at zero f (s ∷ subs) = f s ∷ subs
update_at (suc i) f (s ∷ subs) = s ∷ update_at i f subs

abbrev pub delivery_at : ℕ → List (ℕ × RunEvent) → Option (ℕ × RunEvent)
delivery_at n [] = none
delivery_at zero (d ∷ ds) = some d
delivery_at (suc n) (d ∷ ds) = delivery_at n ds

abbrev pub without : ℕ → List (ℕ × RunEvent) → List (ℕ × RunEvent)
without n [] = []
without zero (d ∷ ds) = ds
without (suc n) (d ∷ ds) = d ∷ without n ds

-- `Publish`, after the lock: one of the deliveries that are left, to a subscription that may have been
-- closed since.
unfoldable pub deliver_one : ℕ → Bus → Bus
unfolding deliver
deliver_one n b = elim (delivery_at n b.in_flight) [
  | none ↦ b
  | some (i, ev) ↦ record b {
    subs = update_at i (deliver b.depth ev) b.subs;
    in_flight = without n b.in_flight;
  }
]

-- A receive from `C()`: the first event of the channel; it blocks on an empty one.
abbrev pub take_first : Subscription → Subscription
take_first s = elim s.queue [ [] ↦ s | ev ∷ queue ↦ record s { queue = queue } ]

abbrev pub first_event : Subscription → List RunEvent
first_event s = elim s.queue [ [] ↦ [] | ev ∷ queue ↦ ev ∷ [] ]

-- `TakeOverflow`
abbrev pub clear_overflow : Subscription → Subscription
clear_overflow s = record s { overflow = false }

-- `Close`
abbrev pub detach : Subscription → Subscription
detach s = record s { attached = false }

-- What the streams and the publishers do, in any order: each call of `Subscribe` and `Publish` is cut
-- where it releases the lock.
pub data Op : Type 0 where
  registered : String → Op
  published : RunEvent → Op
  primed delivered received overflow_taken closed : ℕ → Op

unfoldable pub run_op : Op → Bus → Bus
unfolding register prime publish deliver_one
run_op (registered run_id) b = register run_id b
run_op (primed i) b = record b { subs = update_at i (prime b.depth) b.subs }
run_op (published ev) b = publish ev b
run_op (delivered n) b = deliver_one n b
run_op (received i) b = record b { subs = update_at i take_first b.subs }
run_op (overflow_taken i) b = record b { subs = update_at i clear_overflow b.subs }
run_op (closed i) b = record b { subs = update_at i detach b.subs }

-- `Chunk` of BusBroadcaster, as the event that it publishes: none for an empty delta.
unfoldable pub chunk : String → String → ℕ → String → String → Option RunEvent
chunk run_id session_id step text_delta thoughts_delta =
    if str_eq text_delta "" && str_eq thoughts_delta ""
    then none
    else some record (signal "stream_chunk" run_id) {
      session_id = session_id;
      step = step;
      text_delta = text_delta;
      thoughts_delta = thoughts_delta;
    }

-- `WorkspaceAlias` of BusBroadcaster: the event that it publishes.
unfoldable pub workspace_alias : String → ℕ → String → RunEvent
workspace_alias user numeric_id alias = record (signal "workspace_alias" "") {
  user = user;
  numeric_id = numeric_id;
  alias = alias;
}

-- `SysStat` of BusBroadcaster: the event that it publishes.
unfoldable pub sys_stat_changed : String → RunEvent
sys_stat_changed snapshot = record (signal "sysstat" "") { sys_stat = some snapshot }
