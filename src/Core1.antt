-- ===== src/Core1.antt =====
-- core1.py: the core that owns the sensors.
pub mod Schedule
pub mod State
pub mod Response
pub mod Details
pub mod Startup
pub mod StartupLog
pub mod Health
pub mod Buses
pub mod Run
