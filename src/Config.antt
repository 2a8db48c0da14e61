-- ===== src/Config.antt =====
-- config.py, device_factory.py and the validation of the devices: what a configuration is refused
-- for. A configuration is the value that json.load returns, so the keys of its objects are strings.
pub mod Check
pub mod Pins
pub mod Sensor
pub mod Definition
pub mod Devices
pub mod Unknown
pub mod Settings
pub mod Create
pub mod Wifi
pub mod Split
