-- ===== src/Lib.antt =====
-- amplio: the session core of the agent runtime. Agents are LLM sessions that form a tree in a run.
-- A session's state is its rows in SQLite: a status, a step, a context generation and a stream of
-- events. Goroutines drive sessions; a message to a session wakes its goroutine or starts one.
--
-- The parts and how they interact:
--   * the store (internal/db) keeps sessions and events. Each write is one transaction, sends a
--     store event on a bounded channel, and calls the installed listeners;
--   * the registry (internal/session) has one slot for each running session, with the waiter that
--     wakes it and the context that cancels it; CancelSession walks the tree of sessions;
--   * the runtime (internal/runtime) keeps a registry for each run, starts goroutines, recovers a
--     run, and listens to commits: a commit wakes a live session and revives a cold one;
--   * the loop (internal/agent/eventloop) is the body of a goroutine: it advances the step, reads
--     the context up to the call step, calls the LLM, writes the reply and the tool results, and
--     settles a turn with no tool calls. On entry it repairs what a crash has left;
--   * the edit_file tool (internal/tool), which an agent's turn calls: it resolves edits, by their
--     texts or by the anchors of lines, to ranges of the file, and splices them in bottom-up;
--   * the event stream (internal/eventstream) fans out what happens to the open pages, each with a
--     bounded channel; the name allocator of a run (internal/session) names its new sessions;
--   * the link locks (internal/workspace) serialize the creation of workspaces of one repository.
--
-- The files, with the code that each models:
--   * Event: internal/event/event.go (the event types; `Event` is the interface's implementations);
--   * Db/Types: internal/db/types.go; Db/State: the state of sqliteStore in
--     internal/db/sqlite/sqlite.go and the store events of internal/db/events.go;
--   * Db/Rows, Db/Order: the WHERE and ORDER BY clauses; Db/Sessions, Db/Events, Db/Compact,
--     Db/Terminate: the operations of sqliteStore on sessions and events, under their names;
--     Db/Calls: its writes as data; Db/Keys, Db/Frame, Db/Window, Db/Arrivals, Db/Others: lemmas;
--     Db/Atomic, Db/ExactlyOnce, Db/Frozen: theorems;
--   * Session/Waiter, Session/Registry, Session/Cancel: internal/session/registry.go;
--   * Runtime/Runs: internal/runtime/runreg.go; Runtime/Manager: RespawnSession and RecoverRun of
--     internal/runtime/manager.go, and NewCommitNotifier of internal/runtime/notify.go;
--   * Loop/Text, Loop/Agent, Loop/Park, Loop/Turn: the loop of
--     internal/agent/eventloop/eventloop.go, with tryCompact of compact.go beside it and
--     IsOutputLimitStopReason of internal/llm/provider.go;
--     Loop/Orphans, Loop/Resume: its crash recovery; Loop/Messages: buildMessages, with ToText of
--     internal/event/event.go;
--     Loop/Called, Loop/Repair, Loop/Answered, Loop/Verdict, Loop/Steps, Loop/Budget,
--     Loop/Compactions, Loop/Results: theorems on them;
--   * Db/Reach, Db/Written, Db/Generations, Db/Compacted, Db/Reopened: the generations of rows, and
--     what a compaction and a status write lead to;
--   * Session/Live, Session/Cascade, Session/Ended: the cancel cascade and what it leaves;
--   * Runtime/Wake, Runtime/Launches, Runtime/Valid, Runtime/Orphaned: commits, goroutines, and the
--     registries of the runs;
--   * Edit/Text: the functions of Go's strings package; Edit/Anchor, Edit/Resolve:
--     internal/tool/anchor/anchor.go; Edit/Types, Edit/Replace, Edit/Anchored, Edit/Splice,
--     Edit/Execute, Edit/Diff, Edit/Span: internal/tool/editfile/editfile.go;
--   * Edit/Hits, Edit/Address, Edit/Shown: which line an anchor names; Edit/Search, Edit/Windows,
--     Edit/Replaced, Edit/Lines, Edit/Sound: the ranges to which edits resolve; Edit/Apply,
--     Edit/Sorting, Edit/Range, Edit/Shadow, Edit/Atomic, Edit/Spliced: what their application does to the
--     file; Edit/Diffs: the diff;
--   * Stream/Bus: internal/eventstream; Stream/Reader, Stream/Lookup, Stream/Flight,
--     Stream/Accounts, Stream/Lossless: what a stream gets;
--   * Session/Nickname: internal/nickname/nickname.go; Session/Allocator:
--     internal/session/name_allocator.go; Session/Fresh, Session/Picks: theorems on them;
--   * Workspace/Locks: internal/workspace/locks.go; Workspace/Entries,
--     Workspace/Exclusive: its invariant;
--   * Db/Runs, Db/RunCalls: the operations of sqliteStore on runs; Db/Erased, Db/Pages: what a
--     deletion leaves, and the pages of a listing;
--   * Examples: the theorems at concrete inputs.
--
-- How the state is modelled. `Store` is the rows of the two tables, the clock, the next event
-- id, the channel with its capacity, and the listener calls so far. An operation is a function
-- from a store to a result and a store. A registry is a pointer in the source, and code keeps
-- pointers to registries that the map has lost, so registries and handles are numbered. A method
-- that runs under a lock is one step; Subscribe and Publish of the bus release it half-way, and
-- are cut there.
--
-- Parameters. `Driver` says whether SQLite refuses the statement or transaction about a session
-- in a store, so that in one store the reads and the writes about a session fail together; a
-- refused transaction is rolled back. `healthy` refuses nothing. `World` is what the manager
-- takes from elsewhere (the run table, whether an agent can be built), as one attempt finds it.
-- `Renderer` is the texts of times, statuses and attachments. The edit_file tool takes the
-- BLAKE2b digest, the paths of the citc package and filepath.Join; listings of runs take the
-- order of identifiers and the test of the search terms; `Faults` says what of the file system
-- fails in a call, at which step of a write, what a write that stops half-way leaves, and the
-- name of the temporary file. `int_n` is the random source, by the number of the draw and its
-- bound. The LLM's replies, the results of tools and the summaries are inputs of the functions
-- that use them.
--
-- Bounds. Counters of the store are natural numbers (int in the source); the waiter's counter wraps
-- at 2 ^ 64. `cancel_session` runs on fuel: each level of its recursion first makes a session
-- terminal, so that one more than the number of sessions is enough. `order_fuel` passes one message
-- a round, so the number of messages is enough. `matches_from` passes a byte or more a round, so one
-- more than the bytes of the searched text is enough. Byte offsets and line numbers are natural
-- numbers; the number behind the `@` of an anchor is an int of 64 bits.
--
-- Not modelled: the lesson, observer and phase tables, the LLM providers, the HTTP server, the
-- command line, the other tools, and the background observers, which are I/O around this core; the
-- JSON encoding of events; logging; the texts of the messages of edit_file, and file permissions.
pub mod Common
pub mod Event
pub mod Db
pub mod Session
pub mod Runtime
pub mod Loop
pub mod Edit
pub mod Stream
pub mod Workspace
pub mod Examples
