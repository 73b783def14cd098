-- ===== src/LongRun.antt =====
-- The long-running engine of src/cybercore/longrun: its data, store, governor, watchdog and steps.
pub mod Types
pub mod Evaluation
pub mod Manifest
pub mod Store
pub mod Governor
pub mod Engine
