-- ===== src/Device/Tests.antt =====
-- The theorems of the device manager at concrete devices.
use pico_dualcore.Prelude.{ℕ, none, refl, arith, if◌then◌else◌, ◌==◌}
use pico_dualcore.Device.{
  ManagedDevice, new_device, read_os_error, Init, initialized, init_os_error,
}
use pico_dualcore.Device.Life.{
  Cycle, IsSound, process_device, process_device-IsSound, new_device-IsSound,
}

-- A driver that comes up at its third attempt, and one that never does.
abbrev third : ℕ → Init
third k = if k == 3 then initialized else init_os_error "EIO"

abbrev never : ℕ → Init
never k = init_os_error "EIO"

abbrev sensor : ManagedDevice
sensor = new_device "s1" "sht35" none

abbrev cycle : Cycle
cycle = record { now = 10; later = 20; reading = read_os_error "EIO"; attempts = third }

process_device-IsSound_example : IsSound 3 (process_device 3 5 cycle sensor).1
unfolding process_device new_device
process_device-IsSound_example =
    process_device-IsSound 3 5 cycle sensor (omega arith)
      (new_device-IsSound 3 "s1" "sht35" none (omega arith)) refl
