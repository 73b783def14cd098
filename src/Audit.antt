-- ===== src/Audit.antt =====
-- The audit log of the kernel: src/cybercore/action_kernel_sqlite_audit.py, with the checkpoints of
-- action_kernel_audit_checkpoint.py and the anchors of action_kernel_anchor_authority.py.
pub mod Document
pub mod Sink
pub mod Checkpoint
pub mod Anchor
pub mod Chain
pub mod Anchored
pub mod Log
pub mod History
pub mod Tamper
pub mod Rules
pub mod Recorded
mod Tests
