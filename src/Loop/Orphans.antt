-- ===== src/Loop/Orphans.antt =====
-- `repairOrphanToolCalls` of internal/agent/eventloop/eventloop.go.
use Prim.Native.Nat.{Ordering}
use Prim.Native.String.{compare}
use amplio.Common.{
  ℕ, String, Bool, true, false, not, List, [], ◌∷◌, str_eq, if◌then◌else◌, filter, any,
}
use amplio.Event.{Event, ToolCall, ToolResult, assistant, tool_result}
use amplio.Db.Types.{EventRecord}
use amplio.Db.State.{Driver, Op, ok, err}
use amplio.Db.Events.{append_event_at_step}

-- `declaredStep[id] = step`: a later declaration of the same id wins.
unfoldable pub declare : String → ℕ → List (String × ℕ) → List (String × ℕ)
declare id step [] = (id, step) ∷ []
declare id step ((k, n) ∷ rest) =
    if str_eq k id then (k, step) ∷ rest else (k, n) ∷ declare id step rest

unfoldable pub declare_calls : ℕ → List ToolCall → List (String × ℕ) → List (String × ℕ)
declare_calls step [] m = m
declare_calls step (c ∷ cs) m = declare_calls step cs (declare c.id step m)

abbrev pub declare_event : ℕ → Event → List (String × ℕ) → List (String × ℕ)
declare_event step (assistant a) m = declare_calls step a.tool_calls m
declare_event step _ m = m

-- The map `declaredStep` after the scan.
unfoldable pub declared_steps : List EventRecord → List (String × ℕ) → List (String × ℕ)
unfolding declare_calls
declared_steps [] m = m
declared_steps (x ∷ xs) m = declared_steps xs (declare_event x.step x.event m)

unfoldable pub is_result_for : String → Event → Bool
is_result_for id (tool_result t) = str_eq t.tool_call_id id
is_result_for id _ = false

-- `hasResult[id]`
unfoldable pub has_result : String → List EventRecord → Bool
has_result id xs = any (λ x. is_result_for id x.event) xs

abbrev pub orphaned : List EventRecord → String × ℕ → Bool
orphaned xs (id, step) = not (has_result id xs)

-- sort.Strings
abbrev string_le : String → String → Bool
string_le a b = elim (compare a b) [ Ordering.gt ↦ false | _ ↦ true ]

unfoldable pub insert_id : String × ℕ → List (String × ℕ) → List (String × ℕ)
insert_id x [] = x ∷ []
insert_id x (y ∷ ys) = if string_le x.0 y.0 then x ∷ y ∷ ys else y ∷ insert_id x ys

unfoldable pub sort_ids : List (String × ℕ) → List (String × ℕ)
unfolding insert_id
sort_ids [] = []
sort_ids (x ∷ xs) = insert_id x (sort_ids xs)

-- The calls that have no result, each with the step that declares it.
unfoldable pub orphans : List EventRecord → List (String × ℕ)
orphans xs = sort_ids (filter (orphaned xs) (declared_steps xs []))

abbrev pub interrupted_text : String
interrupted_text = "[Tool execution interrupted by process crash; no result available.]"

abbrev pub placeholder : String → ToolResult
placeholder id = record {
  content = interrupted_text;
  tool_call_id = id;
  attachments = [];
  is_error = true;
}

module _ (v : Driver) (r s : String) where
  unfoldable pub append_placeholders : List (String × ℕ) → Op (Unit {0})
  append_placeholders [] d = (ok tt, d)
  append_placeholders ((id, step) ∷ rest) d =
      let (result, d') = append_event_at_step v r s step (tool_result (placeholder id)) d in
      let more = append_placeholders rest d' in elim result [ err e ↦ (err e, d') | ok _ ↦ more ]

  -- `repairOrphanToolCalls`
  unfoldable pub repair_orphan_tool_calls : List EventRecord → Op (Unit {0})
  unfolding orphans append_placeholders
  repair_orphan_tool_calls rows d = append_placeholders (orphans rows) d
