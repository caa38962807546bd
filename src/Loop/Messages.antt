-- ===== src/Loop/Messages.antt =====
-- `buildMessages`, `orderToolResults` and `eventToMessage` of eventloop.go, with `ToText` of
-- internal/event/event.go: the projection of a stream to an LLM request.
use amplio.Common.{
  ℕ, zero, suc, ◌+◌, String, ◌<>◌, Bool, true, false, ◌&&◌, List, [], ◌∷◌, ◌++◌, str_eq, leb,
  if◌then◌else◌, length,
}
use amplio.Event.{
  Event, ToolCall, Attachment, Assistant, Status, SenderType, Marker, system, user, assistant,
  tool_result, compaction, message, child_result, recover, is_nil,
}
use amplio.Db.Types.{EventRecord}
use amplio.Common.{codes}
use amplio.Loop.Text.{trim_space, empty_assistant_placeholder}

pub data Role : Type 0 where
  role_system role_user role_assistant role_tool_result : Role

-- `llm.Message`; a tool call has the fields of the event's.
pub record Message : Type 0 where
  pub role : Role
  pub content : String
  pub tool_calls : List ToolCall
  pub provider_extra : String
  pub tool_call_id : String
  pub attachments : List String

abbrev pub compaction_framing : String
compaction_framing =
    "This is a faithful summary of work you have ALREADY COMPLETED. Read it as your memory of what happened, then proceed with whatever work remains.\n\n"

-- What the projection takes from elsewhere: the texts of statuses, markers and sender types, the
-- local time of a timestamp (`util.FormatLocalISO`), and the blob store's reads.
pub record Renderer : Type 0 where
  pub status_text : Status → String
  pub marker_text : Marker → String
  pub sender_text : SenderType → String
  pub local_iso : ℕ → String
  pub load_attachments : List Attachment → List String

unfoldable pub join_attrs : List String → String
join_attrs [] = ""
join_attrs (a ∷ as') =
    let rest = join_attrs as' in if str_eq a "" then rest else " · " <> (a <> rest)

-- `banner`
unfoldable pub banner : String → List String → String → String
unfolding join_attrs
banner label attrs content = "==== " <> (label <> (join_attrs attrs <> (" ====\n" <> content)))

abbrev plain : Role → String → Message
plain role content = record {
  role = role;
  content = content;
  tool_calls = [];
  provider_extra = "";
  tool_call_id = "";
  attachments = [];
}

module _ (t : Renderer) where
  -- `tsAttr`: a row that the store has written has a time.
  abbrev ts_attr : String → ℕ → String
  ts_attr name at = name <> ("=" <> t.local_iso at)

  abbrev system_attrs : Marker → List String
  system_attrs Marker.unmarked = []
  system_attrs m = t.marker_text m ∷ []

  abbrev from_attr : String → List String
  from_attr sender = if str_eq sender "" then [] else ("from=" <> sender) ∷ []

  abbrev type_attr : SenderType → List String
  type_attr SenderType.environment = ("type=" <> t.sender_text SenderType.environment) ∷ []
  type_attr _ = []

  -- An empty turn with no tool calls is projected as the placeholder.
  abbrev assistant_content : Assistant → String
  assistant_content a =
      if is_nil (trim_space (codes a.content)) && is_nil a.tool_calls
      then empty_assistant_placeholder
      else a.content

  -- `eventToMessage`
  unfoldable pub event_to_message : ℕ → Event → Message
  unfolding banner trim_space
  event_to_message at (system content m) =
      plain role_system (banner "system" (system_attrs m) content)
  event_to_message at (user content) = plain role_user content
  event_to_message at (assistant a) = record {
    role = role_assistant;
    content = assistant_content a;
    tool_calls = a.tool_calls;
    provider_extra = a.provider_extra;
    tool_call_id = "";
    attachments = [];
  }
  event_to_message at (tool_result r) = record {
    role = role_tool_result;
    content = r.content;
    tool_calls = [];
    provider_extra = "";
    tool_call_id = r.tool_call_id;
    attachments = t.load_attachments r.attachments;
  }
  event_to_message at (compaction content) =
      plain role_user (compaction_framing <> banner "compaction" (ts_attr "at" at ∷ []) content)
  event_to_message at (message content sender kind) =
      plain role_user
        (banner "message" (from_attr sender ++ (type_attr kind ++ ts_attr "at" at ∷ [])) content)
  event_to_message at (child_result content child verdict) = plain role_user (
      banner "child_result"
        (("child=" <> child) ∷ ("verdict=" <> t.status_text verdict) ∷ ts_attr "at" at ∷ [])
        content)
  event_to_message at (recover content) = plain role_user (banner "recover" [] content)

  abbrev pub is_system : Role → Bool
  is_system role_system = true
  is_system _ = false

  unfoldable pub to_messages : List EventRecord → List Message
  to_messages [] = []
  to_messages (x ∷ xs) = event_to_message x.created_at x.event ∷ to_messages xs

-- The leading run of system messages, and the rest.
unfoldable pub split_leading : List Message → List String × List Message
split_leading [] = ([], [])
split_leading (m ∷ ms) =
    let rest = split_leading ms in
    elim m.role [ role_system ↦ (m.content ∷ rest.0, rest.1) | _ ↦ ([], m ∷ ms) ]

abbrev pub is_role_tool_result : Role → Bool
is_role_tool_result role_tool_result = true
is_role_tool_result _ = false

abbrev pub is_role_assistant : Role → Bool
is_role_assistant role_assistant = true
is_role_assistant _ = false

-- The first position of an id among the calls of a turn, or their number.
unfoldable pub rank : List ToolCall → String → ℕ
rank [] id = 0
rank (c ∷ cs) id = if str_eq c.id id then 0 else rank cs id + 1

-- sort.SliceStable by rank.
unfoldable pub insert_ranked : List ToolCall → Message → List Message → List Message
insert_ranked cs m [] = m ∷ []
insert_ranked cs m (x ∷ xs) =
    if leb (rank cs m.tool_call_id) (rank cs x.tool_call_id)
    then m ∷ x ∷ xs
    else x ∷ insert_ranked cs m xs

unfoldable pub sort_ranked : List ToolCall → List Message → List Message
unfolding insert_ranked
sort_ranked cs [] = []
sort_ranked cs (m ∷ ms) = insert_ranked cs m (sort_ranked cs ms)

-- The run of tool results at the head, and what follows it.
unfoldable pub take_results : List Message → List Message
take_results [] = []
take_results (m ∷ ms) = if is_role_tool_result m.role then m ∷ take_results ms else []

unfoldable pub drop_results : List Message → List Message
drop_results [] = []
drop_results (m ∷ ms) = if is_role_tool_result m.role then drop_results ms else m ∷ ms

-- A message that begins a run: an assistant turn with at least two calls.
abbrev pub orders : Message → Bool
orders m = is_role_assistant m.role && leb 2 (length m.tool_calls)

-- `orderToolResults`. The messages of a run stand in it again: a run has no assistant message, so
-- to walk over the sorted run as well changes nothing.
unfoldable pub order_run : Message → List Message → List Message
unfolding sort_ranked
order_run m ms =
    if orders m then sort_ranked m.tool_calls (take_results ms) ++ drop_results ms else ms

unfoldable pub order_fuel : ℕ → List Message → List Message
order_fuel zero ms = ms
order_fuel (suc k) [] = []
order_fuel (suc k) (m ∷ ms) = m ∷ order_fuel k (order_run m ms)

-- Each round passes one message.
unfoldable pub order_tool_results : List Message → List Message
unfolding order_fuel order_run
order_tool_results ms = order_fuel (length ms) ms

unfoldable pub join_blank : List String → String
join_blank [] = ""
join_blank (s ∷ []) = s
join_blank (s ∷ t ∷ rest) = s <> ("\n\n" <> join_blank (t ∷ rest))

-- `buildMessages`: the system prompt, and the messages.
unfoldable pub build_messages : Renderer → List EventRecord → String × List Message
build_messages t rows =
    let (sys, rest) = split_leading (to_messages t rows) in
    (join_blank sys, order_tool_results rest)
