-- ===== src/Process.antt =====
-- supervice/process.py: one supervised process, its supervision task, its health task and the
-- requests that act on it.
pub mod State
pub mod Kill
pub mod Spawn
pub mod Supervise
pub mod Health
pub mod Requests
pub mod Respects
pub mod EventLog
pub mod System
pub mod Ownership
