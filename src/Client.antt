-- ===== src/Client.antt =====
-- The command-line client (supervice/client.py).
pub mod Uptime
pub mod Table
pub mod Commands
