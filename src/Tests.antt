-- ===== src/Tests.antt =====
-- Runs of the model on small inputs, and each theorem applied to one.
mod Bus
mod ChildLog
mod Client
mod Config
mod Core
mod Daemon
mod Entry
mod File
mod Rpc
mod Supervision
