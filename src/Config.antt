-- ===== src/Config.antt =====
-- The configuration file (supervice/config.py).
pub mod Environment
pub mod Validation
pub mod Numbers
pub mod Parse
pub mod Groups
pub mod File
