-- ===== src/Event.antt =====
-- internal/event/event.go: the events of a session's stream.
-- The column fields (step, generation, time) stand in the row that holds an event (Db.Types).
use amplio.Common.{ℕ, String, List, [], ◌∷◌, Bool, true, false, Option}

pub record ToolCall : Type 0 where
  pub id : String
  pub name : String
  pub arguments : String

-- The bytes of an attachment are in the blob store; the stream keeps the reference.
pub record Attachment : Type 0 where
  pub mime_type : String
  pub blob_key : String
  pub size : ℕ
  pub source_hint : String

pub record Usage : Type 0 where
  pub prompt_tokens : ℕ
  pub completion_tokens : ℕ
  pub total_tokens : ℕ
  pub cache_read_tokens : ℕ
  pub cache_write_tokens : ℕ

pub record Refusal : Type 0 where
  pub category : String
  pub explanation : String

-- `ProviderExtra` is the provider's opaque JSON text.
pub record Assistant : Type 0 where
  pub content : String
  pub tool_calls : List ToolCall
  pub thoughts : String
  pub stop_reason : String
  pub stop_message : String
  pub refusal : Option Refusal
  pub provider_extra : String
  pub usage : Option Usage

pub record ToolResult : Type 0 where
  pub content : String
  pub tool_call_id : String
  pub attachments : List Attachment
  pub is_error : Bool

-- The session statuses of internal/db/types.go, which are also the verdicts of child results.
pub data Status : Type 0 where
  ongoing awaiting idle concluded crashed cancelled : Status

-- `SenderType`: the two constants, and the empty text of older rows.
pub data SenderType : Type 0 where
  agent environment unset : SenderType

pub data Marker : Type 0 where
  system_prompt cli_tools initial_recall workspace agents_md new_session marker_cancelled : Marker
  marker_error unmarked : Marker

pub data Event : Type 0 where
  system : String → Marker → Event
  user : String → Event
  assistant : Assistant → Event
  tool_result : ToolResult → Event
  compaction : String → Event
  message : String → String → SenderType → Event
  child_result : String → String → Status → Event
  recover : String → Event

abbrev pub is_nil {ℓ} : {A : Type ℓ} → List A → Bool
is_nil [] = true
is_nil (x ∷ xs) = false

-- `IsNoToolAssistant`
unfoldable pub is_no_tool_assistant : Event → Bool
is_no_tool_assistant (assistant a) = is_nil a.tool_calls
is_no_tool_assistant _ = false
