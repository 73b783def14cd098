-- ===== src/Bridge.antt =====
-- The kernel's bridge to CyberHIVE nodes, which only ever asks for dry runs:
-- src/cybercore/action_kernel_hive_bridge.py, action_kernel_interop.py, action_kernel_sqlite_replay.py
-- and action_kernel_trusted_broker.py.
pub mod Guards
pub mod Interop
pub mod Process
pub mod DryRun
pub mod Broker
mod Tests
