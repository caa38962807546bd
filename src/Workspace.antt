-- ===== src/Workspace.antt =====
-- internal/workspace: the locks of linked workspaces.
pub mod Locks
pub mod Entries
pub mod Exclusive
