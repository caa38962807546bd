-- ===== src/Db.antt =====
-- internal/db and internal/db/sqlite: the durable store of sessions and events.
pub mod Types
pub mod State
pub mod Rows
pub mod Order
pub mod Sessions
pub mod Runs
pub mod RunCalls
pub mod Erased
pub mod Pages
pub mod Events
pub mod Compact
pub mod Terminate
pub mod Keys
pub mod Calls
pub mod Atomic
pub mod Window
pub mod Frame
pub mod ExactlyOnce
pub mod Arrivals
pub mod Others
pub mod Frozen
pub mod Reopened
pub mod Reach
pub mod Written
pub mod Generations
pub mod Compacted
