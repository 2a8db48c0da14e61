-- ===== src/Core0.antt =====
-- core0.py: the core that owns the network.
mod Tests
pub mod World
pub mod State
pub mod Keeps
pub mod Numbered
pub mod Basics
pub mod Handlers
pub mod Info
pub mod Command
pub mod Publish
pub mod Respond
pub mod Service
pub mod Reboot
pub mod Utc
pub mod Network
pub mod Run
pub mod Start
pub mod Settled
pub mod Boundary
pub mod Arrive
pub mod Sound
pub mod Acknowledged
pub mod Clock
