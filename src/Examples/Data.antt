-- ===== src/Examples/Data.antt =====
-- Concrete data: the rows of a run in which the boss session has spawned the kid session, and the
-- kid was interrupted between the results of its two tool calls.
use amplio.Common.{ℕ, String, [], ◌∷◌, none, false, true}
use amplio.Event.{
  Event, Assistant, ToolResult, ongoing, system, user, assistant, tool_result, system_prompt,
}
use amplio.Db.Types.{SessionRecord, EventRecord}
use amplio.Db.State.{Store}
use amplio.Loop.Agent.{Config, Agent, Failure}
use amplio.Db.Calls.{healthy}
use amplio.Runtime.Manager.{World, Manager}

abbrev pub session : String → String → ℕ → SessionRecord
session name parent step = record {
  run_id = "run";
  session_id = name;
  agent_type = "standard";
  task = "";
  status = ongoing;
  current_step = step;
  current_generation = 0;
  parent_id = parent;
  created_at = 1;
  status_changed_at = 1;
  last_finalized_step = 0;
  last_summarized_step = 0;
  last_phased_step = 0;
}

abbrev pub row : String → ℕ → ℕ → Event → EventRecord
row name id step e = record {
  run_id = "run";
  session_id = name;
  event_id = id;
  step = step;
  generation = 0;
  event = e;
  created_at = id;
}

abbrev pub reply : String → Assistant
reply text = record {
  content = text;
  tool_calls = [];
  thoughts = "";
  stop_reason = "stop";
  stop_message = "";
  refusal = none;
  provider_extra = "";
  usage = none;
}

abbrev pub two_calls : Assistant
two_calls = record (reply "") {
  tool_calls =
      record { id = "c1"; name = "bash"; arguments = "{}" }
      ∷ record { id = "c2"; name = "bash"; arguments = "{}" }
      ∷ [];
}

abbrev pub result_of : String → ToolResult
result_of id = record { content = "done"; tool_call_id = id; attachments = []; is_error = false }

abbrev pub boss : SessionRecord
boss = session "boss" "" 3

abbrev pub kid : SessionRecord
kid = session "kid" "boss" 2

abbrev pub db : Store
db = record {
  sessions = boss ∷ kid ∷ [];
  events =
      row "kid" 0 0 (system "You are a kid." system_prompt)
      ∷ row "kid" 1 1 (assistant two_calls)
      ∷ row "kid" 2 1 (tool_result (result_of "c1"))
      ∷ row "boss" 3 2 (user "hello")
      ∷ [];
  clock = 9;
  next_id = 4;
  queue = [];
  capacity = 100;
  closed = false;
  fired = [];
}

-- The text of a failure.
abbrev pub render : Failure → String
render f = "failed"

abbrev pub kid_config : Config
kid_config = record { run_id = "run"; session_id = "kid"; parent_id = "boss"; interactive = false }

abbrev pub kid_agent : Agent
kid_agent = record {
  db = db;
  registry = none;
  call_step = none;
  conclude_nudges = 0;
  output_limit_nudges = 0;
}

abbrev pub world : World
world = record {
  driver = healthy;
  has_run = λ r. true;
  agent_known = λ a. true;
  launchable = λ x. true;
  buildable = λ x. true;
  resumed_text = λ t. "resumed";
}

abbrev pub idle_manager : Manager
idle_manager = record {
  db = db;
  runs = record { runs = []; instances = [] };
  allocators = [];
  launched = [];
}

-- The kid's goroutine runs.
abbrev pub busy_manager : Manager
busy_manager = record {
  db = db;
  runs = record {
    runs = ("run", 0) ∷ [];
    instances =
        record {
          slots = ("kid", 0) ∷ [];
          handles = record { waiter = record { counter = 5 }; cancelled = false } ∷ [];
        }
        ∷ [];
  };
  allocators = "run" ∷ [];
  launched = record { run = "run"; session = "kid"; instance_id = 0; handle = 0 } ∷ [];
}
