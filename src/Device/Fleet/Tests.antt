-- ===== src/Device/Fleet/Tests.antt =====
-- A retry pass over a device whose boot failed.
use pico_dualcore.Prelude.{true, none, some, [], ◌∷◌, refl}
use pico_dualcore.Device.{ManagedDevice, new_device, Init, initialized}
use pico_dualcore.Device.Fleet.{
  Definition, DeviceManager, Created, created, boot_recovered, retry_failed_devices, find_failed,
  delete_failed, by_creation, by_probe, promote,
}
use pico_dualcore.Device.Fleet.Recovery.{Conserves, retry_failed_devices-Conserves}

abbrev sensor : ManagedDevice
sensor = new_device "s1" "sht35" none

abbrev definition : Definition
definition = record { id = "s1"; device_type = "sht35"; name = none }

abbrev manager : DeviceManager
manager = record {
  active = [];
  failed =
      record {
        id = "s1";
        device = "sht35";
        initialization_attempts_used = 3;
        failure_reason = some "EIO";
        retry_failure_logged = true;
      }
      ∷ [];
}

abbrev created_all : Definition → Created
created_all d = created

abbrev probed_all : Definition → Init
probed_all d = initialized

abbrev recovered_manager : DeviceManager
recovered_manager = record {
  active = record sensor { initialization_attempts_used = 4 } ∷ [];
  failed = [];
}

retry_failed_devices-Conserves_example :
    Conserves manager (boot_recovered "s1" 4 ∷ []) recovered_manager
unfolding retry_failed_devices find_failed delete_failed by_creation by_probe promote new_device
retry_failed_devices-Conserves_example =
    retry_failed_devices-Conserves created_all probed_all (definition ∷ []) manager refl
