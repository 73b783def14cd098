-- ===== src/Execution.antt =====
-- Governed actions on the server of tasks: the client in src/cybercore/execution/ and the server in
-- src/cybercore/execution/server/.
pub mod Json
pub mod Inventory
pub mod Docker
pub mod Report
pub mod Stable
pub mod Protocol
pub mod Authorization
pub mod Process
pub mod Server
pub mod Dispatcher
pub mod Policy
pub mod Response
pub mod Client
pub mod Agreement
pub mod Transfer
mod Tests
