-- ===== src/Rooms.antt =====
-- Rooms that people and agents share: src/cybercore/communication/.
pub mod Registry
pub mod Coordinator
