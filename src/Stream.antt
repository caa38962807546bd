-- ===== src/Stream.antt =====
-- internal/eventstream: the fan-out of run events to the open streams.
pub mod Bus
pub mod Reader
pub mod Lookup
pub mod Flight
pub mod Accounts
pub mod Lossless
