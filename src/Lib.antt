-- ===== src/Lib.antt =====
-- The firmware of a Raspberry Pi Pico W that reads sensors on one core and talks MQTT on the
-- other, as functions and their theorems. The parts modelled, and where:
--
--   config_manager.py, config.py (load_config, _read_json): Storage, ConfigManager. Storage is the
--     flash file system: the files config.json, .tmp, .old and .cleanup, the operations on them
--     (stat, remove, rename, write, sync) and a monad that runs them against a list of faults, one
--     for each operation: it goes well, it raises before or after its effect, power is lost, or a
--     write is torn. Storage/Triple reasons on programs over it. ConfigManager has recover,
--     read_persisted, begin_write and their helpers line by line, each try block with its
--     handlers; what JSON parsing, validate_config and the comparison of configurations do is the
--     interface ConfigFormat, in which an exception of validate_config other than ConfigError has
--     no place. ConfigManager.Changes has _changes_summary and _device_changes over the values of
--     JSON, Same the equality of Python on them.
--   intercore.py: Intercore.Outbound is the queue of messages for the broker: put_with_kind, the
--     admission with its displacement loop, take and complete_in_flight; Outbound.Serialize has
--     put with its serialization, retried over an exhausted heap. Intercore.Events is the queue of
--     events from Core 0 to Core 1, Intercore.Container joins the lanes with the mailboxes.
--     gc.mem_free() is a parameter, its n-th measurement, of which nothing is assumed. In Outbound
--     the two locks are fields, with a flag for a breach of their discipline; in Events each
--     operation is one step.
--   message_serializer.py, message_protocol.py: Message, over the Python values of Value, with
--     Message.Time for the text of a time; json.dumps and time.gmtime are parameters.
--   device_manager.py: Device. Device itself is ManagedDevice and a normal read, Device.Retry the
--     attempts at driver.initialize() and the sliced sleep, Device.Life the cycles of one device
--     with reinitialization, Device.Fleet the manager: boot, late retries, counts; Device.Snapshot
--     the status of both. What a driver comes to is an argument: a value, an OSError, or another
--     exception.
--   mqtt_client.py: MqttClient has the remaining-length codec and the packet ids.
--     MqttClient.Socket is the client over its link: the bytes that will arrive, the bytes
--     written, how many more bytes the link takes before a write fails, how many more changes of
--     the timeout succeed, and what the callback got; an operation returns its outcome with the
--     link, also when it raises. The calls of the socket do what a blocking socket promises: a
--     read is short only where the stream ends or times out, a write that fails may have sent a
--     part. MqttClient.Receive has wait_msg, MqttClient.Send connect, ping, publish, subscribe and
--     check_msg; Tame and Bounded carry invariants through them.
--   config.py (validate_config, load_wifi_config, split_config), device_factory.py,
--     devices/rp2_pins.py, devices/rp2_i2c.py, devices/*/validation.py: Config. Config.Check has
--     the checks, which accept, refuse with a ConfigError's code and unknown fields, or raise
--     another exception, and the access to the objects that json.load makes; Config.Pins the
--     tables of the board; Config.Sensor a module for each of the five validators, with what they
--     share above them; Config.Definition one device definition, Config.Devices the rules that
--     span the list of devices, Config.Unknown the unknown fields, Config.Settings the whole of
--     validate_config in groups of its steps, Config.Create create_device, Config.Wifi and
--     Config.Split the Wi-Fi secrets and the parts of the two cores. The text of an error is left
--     out. The integers of a configuration are unbounded, as Python's are, and its floats are the
--     binary fractions n / 2^k, the infinities and NaN.
--   mqtt.py, network_wait.py: Mqtt is the session over the client: the attempts to connect, each
--     with a new socket that is an argument, the operations with their handlers, and the counts.
--     Mqtt.Sound and Mqtt.Reconnect carry its invariant.
--   core0.py: Core0, over the session, Wi-Fi and the lanes as they are modelled. World is what the
--     core takes from outside, its n-th reading of the clock, of the heap or of the flash; State
--     has the fields of the class and the steps, which end, or raise a transport error, an error
--     of the size, another exception (escape, which ends run()) or machine.reset() (halted).
--     Basics, Handlers, Info and Command are what a message does; Publish and Respond what is
--     sent; Service the waits with their watch on Core 1; Reboot, Utc, Network, Run (run_pass is
--     one round of run()) and Start the rest. A message that arrives in an exchange is handled
--     when the exchange is over. The service hook that core0.py gives the session and Wi-Fi (the
--     watch on Core 1, which may reset the board, then the watchdog) runs in exchange,
--     connect_wifi and connect_mqtt: once for each slice slept, and in the exchanges a number of
--     times that is an argument (hook_calls); all its calls stand before the result of the
--     operation is adopted. Settled, Boundary, Arrive, Sound, Acknowledged and Clock hold the
--     theorems; Keeps the rules that carry an invariant through the steps.
--   core1.py: Core1. State has the lanes as this core uses them, with its uptime, and the steps;
--     Run one round of the loop of core1_main, over the variables of the loop, and Run.Start what
--     precedes it; Run.Commands has theorems on the events. Schedule has the boundaries of the
--     periodic work, with ticks_diff and ticks_add parameters; Response the responses to commands,
--     with their smaller forms; Details the sections that answer get-details; StartupLog the
--     startup log, Startup its admission and the telemetry of a result; Health the judgements of
--     the health report, Health.Report the message; Buses the caches of the bus factories.
--   wifi.py: Wifi, for any answers of the radio.
--   led_manager.py: LedManager. command_protocol.py: CommandProtocol. uptime.py: Uptime, with
--     ticks_diff a parameter.
--
-- How the parts interact: Core 1 runs the devices and puts their results, serialized, in the
-- outbound queue; Core 0 takes an entry, publishes it, and completes it after the PUBACK; the
-- event queue carries commands to Core 1; a write-config command ends in begin_write and boot
-- starts with recover.
--
-- Fuel: the displacement loops of the outbound queue run on one round more than the queue is long,
-- enough because each round but the last displaces an entry; the sleep runs on the delay in
-- milliseconds, as each slice takes at least one; _recv_len reads four bytes at most, as the
-- source's test of the shift has it; the length encoder has three rounds, which the test of the
-- size makes enough; a Wi-Fi window has its 200 slices; a loop that waits for an answer runs on
-- one round more than bytes arrive, and each packet takes a byte at least, so that a broker that
-- never stops sending is outside the model.
--
-- The loops of core0.py without a bound, establish_network, the waits of start and the start
-- itself, run on fuel and raise out_of_fuel where it ends; no theorem says that they end, since a
-- network that stays away keeps them waiting. skip_boundaries runs on one round more than the
-- distance to now, and ends within it; a round of core1_main takes its fuel as an argument.
--
-- Not modelled: system_information.py and hardware.py, which read figures of the machine: what
-- they come to is an argument of Core1; in core0.py a MemoryError within the session, what an
-- operation of the session or a message in it had done before its hook reset the board, and the
-- messages that arrive in an attempt to connect that then fails, neither of which the session's
-- model shows; the drivers of the sensors, which are register I/O and floating-point; main.py,
-- which calls the other parts in order; the console, and the pauses that only wait.
mod Prelude
pub mod Value
pub mod CommandProtocol
pub mod Uptime
pub mod Message
pub mod Core0
pub mod Core1
pub mod Device
pub mod Storage
pub mod ConfigManager
pub mod Config
pub mod Intercore
pub mod LedManager
pub mod MqttClient
pub mod Mqtt
pub mod Wifi
