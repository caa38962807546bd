-- ===== src/Session.antt =====
-- internal/session: the coordination of live sessions.
pub mod Waiter
pub mod Registry
pub mod Cancel
pub mod Live
pub mod Cascade
pub mod Ended
pub mod Nickname
pub mod Allocator
pub mod Fresh
pub mod Picks
