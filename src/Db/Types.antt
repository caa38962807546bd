-- ===== src/Db/Types.antt =====
-- internal/db/types.go: statuses, event classes, rows and filters.
use amplio.Common.{ℕ, String, Bool, true, false, Option, none, str_eq}
use amplio.Event.{
  Event, Status, ongoing, awaiting, concluded, crashed, cancelled, user, message, child_result,
  recover,
}

-- `SessionTerminalStatuses`
unfoldable pub is_terminal : Status → Bool
is_terminal concluded = true
is_terminal crashed = true
is_terminal cancelled = true
is_terminal _ = false

pub data EventClass : Type 0 where
  class_notice class_input : EventClass

abbrev is_concluded : Status → Bool
is_concluded concluded = true
is_concluded _ = false

abbrev class_of_verdict : Bool → EventClass
class_of_verdict true = class_input
class_of_verdict false = class_notice

-- `Classify`
unfoldable pub classify : Event → EventClass
classify (user content) = class_input
classify (message content sender sender_type) = class_input
classify (child_result content child verdict) = class_of_verdict (is_concluded verdict)
classify (recover content) = class_input
classify _ = class_notice

abbrev is_class_input : EventClass → Bool
is_class_input class_input = true
is_class_input class_notice = false

-- `IsInput`
unfoldable pub is_input : Event → Bool
unfolding classify
is_input e = is_class_input (classify e)

pub record SessionRecord : Type 0 where
  pub run_id : String
  pub session_id : String
  pub agent_type : String
  pub task : String
  pub status : Status
  pub current_step : ℕ
  pub current_generation : ℕ
  pub parent_id : String
  pub created_at : ℕ
  pub status_changed_at : ℕ
  pub last_finalized_step : ℕ
  pub last_summarized_step : ℕ
  pub last_phased_step : ℕ

abbrev spine_by_status : Status → String → Bool
spine_by_status ongoing parent = true
spine_by_status awaiting parent = true
spine_by_status crashed parent = str_eq parent ""
spine_by_status _ parent = false

-- `IsSpine`
unfoldable pub is_spine : SessionRecord → Bool
is_spine s = spine_by_status s.status s.parent_id

pub record EventRecord : Type 0 where
  pub run_id : String
  pub session_id : String
  pub event_id : ℕ
  pub step : ℕ
  pub generation : ℕ
  pub event : Event
  pub created_at : ℕ

pub record EventFilter : Type 0 where
  pub current_context_only : Bool
  pub start_step : Option ℕ
  pub end_step : Option ℕ

-- The filter of a session's current context: EventFilter{CurrentContextOnly: true}.
abbrev pub current_context : EventFilter
current_context = record { current_context_only = true; start_step = none; end_step = none }
