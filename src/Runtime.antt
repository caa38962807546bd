-- ===== src/Runtime.antt =====
-- internal/runtime: the runs of a server, and how committed events bring sessions back.
pub mod Runs
pub mod Manager
pub mod Wake
pub mod Launches
pub mod Valid
pub mod Orphaned
