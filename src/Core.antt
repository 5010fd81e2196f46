-- ===== src/Core.antt =====
-- The supervisor (supervice/core.py).
pub mod Instances
pub mod Reload
pub mod Loading
pub mod PidFile
pub mod Run
