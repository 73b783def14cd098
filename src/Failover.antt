-- ===== src/Failover.antt =====
-- src/cybercore/failover_sim.py: the offline failover simulator, class by class.
pub mod Types
pub mod Keys
pub mod Journal
pub mod Provider
pub mod Simulator
pub mod Methods
pub mod History
