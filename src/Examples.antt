-- ===== src/Examples.antt =====
-- The theorems at concrete inputs: a small run with a boss session and a kid session.
pub mod Data
mod Store
mod Loop
mod Runtime
mod Edit
mod Stream
mod Runs
