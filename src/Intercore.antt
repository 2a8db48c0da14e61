-- ===== src/Intercore.antt =====
-- intercore.py: the lanes between the two cores. `Outbound` is the queue of MQTT-bound messages.
pub mod Outbound
pub mod Events
pub mod Container
