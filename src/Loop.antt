-- ===== src/Loop.antt =====
-- internal/agent/eventloop: the agent loop, its turns, its recovery and its message building.
pub mod Text
pub mod Agent
pub mod Park
pub mod Turn
pub mod Orphans
pub mod Resume
pub mod Messages
pub mod Results
pub mod Verdict
pub mod Steps
pub mod Called
pub mod Repair
pub mod Answered
pub mod Budget
pub mod Compactions
