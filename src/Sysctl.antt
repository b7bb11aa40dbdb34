-- ===== src/Sysctl.antt =====
-- The system controller of src/drivers/sysctl.c: resets, clock gates, thresholds and selects.
pub mod Layout
pub mod Fields
pub mod PllFields
pub mod Ids
pub mod Switches
pub mod Clocks
pub mod Thresholds
pub mod Pll
pub mod Frequency
pub mod Domains
pub mod Start
pub mod Tests
use k210_guard_bootloader.Prelude.{ℕ, bit_and, Bool, true, false, Option, none, some}
use k210_guard_bootloader.Prelude.Tests.{◌==◌, if◌then◌else◌}
use k210_guard_bootloader.Prelude.Words.{u8}
use k210_guard_bootloader.Prelude.Int.{ℤ, pos, negsuc}
use k210_guard_bootloader.Sysctl.Layout.{Field, Registers, read, write}
use k210_guard_bootloader.Sysctl.Ids.{Clock, Select, Threshold, Reset, clock_max}
use k210_guard_bootloader.Sysctl.Switches.{
  reset_field, bus_field, device_field, threshold_field, threshold_read, select_field, select_read,
}

-- A write to the field of a switch's case; the default case does nothing.
unfoldable pub write_at : Registers → Option Field → ℕ → Registers
write_at r none v = r
write_at r (some f) v = write r f v

-- A write to the masked field of a switch's case, and 0; the default case is -1.
unfoldable pub write_masked : Registers → Option (Field × ℕ) → ℕ → ℤ × Registers
write_masked r none v = (negsuc 0, r)
write_masked r (some (f, mask)) v = (pos 0, write r f (bit_and v mask))

-- The value of the field of a switch's case; the default case is 0.
unfoldable pub read_at : Registers → Option Field → ℕ
read_at r none = 0
read_at r (some f) = read r f

-- `sysctl_reset_ctl`
unfoldable pub sysctl_reset_ctl : Reset → ℕ → Registers → Registers
sysctl_reset_ctl reset rst_value r = write_at r (reset_field reset) rst_value

-- `sysctl_reset`
unfoldable pub sysctl_reset : Reset → Registers → Registers
sysctl_reset reset r = sysctl_reset_ctl reset 0 (sysctl_reset_ctl reset 1 r)

-- `sysctl_clock_bus_en`
unfoldable pub sysctl_clock_bus_en : Clock → ℕ → Registers → Registers
sysctl_clock_bus_en clock en r = if en == 0 then r else write_at r (bus_field clock) en

-- `sysctl_clock_device_en`
unfoldable pub sysctl_clock_device_en : Clock → ℕ → Registers → Registers
sysctl_clock_device_en clock en r = write_at r (device_field clock) en

-- The test `clock >= SYSCTL_CLOCK_MAX`.
unfoldable pub no_clock : Clock → Bool
no_clock clock_max = true
no_clock _ = false

-- `sysctl_clock_enable`
unfoldable pub sysctl_clock_enable : Clock → Registers → ℤ × Registers
sysctl_clock_enable clock r =
    if no_clock clock
    then (negsuc 0, r)
    else (pos 0, sysctl_clock_device_en clock 1 (sysctl_clock_bus_en clock 1 r))

-- `sysctl_clock_disable`
unfoldable pub sysctl_clock_disable : Clock → Registers → ℤ × Registers
sysctl_clock_disable clock r =
    if no_clock clock
    then (negsuc 0, r)
    else (pos 0, sysctl_clock_device_en clock 0 (sysctl_clock_bus_en clock 0 r))

-- `sysctl_clock_set_threshold`
unfoldable pub sysctl_clock_set_threshold : Threshold → ℕ → Registers → ℤ × Registers
sysctl_clock_set_threshold which threshold r = write_masked r (threshold_field which) (u8 threshold)

-- `rc` at the end of `sysctl_clock_get_threshold`
unfoldable pub threshold_value : Threshold → Registers → ℕ
threshold_value which r = read_at r (threshold_read which)

-- `sysctl_clock_get_threshold`
unfoldable pub sysctl_clock_get_threshold : Threshold → Registers → ℤ
sysctl_clock_get_threshold which r = pos (threshold_value which r)

-- `sysctl_clock_set_clock_select`
unfoldable pub sysctl_clock_set_clock_select : Select → ℕ → Registers → ℤ × Registers
sysctl_clock_set_clock_select which select r = write_masked r (select_field which) select

-- `sysctl_clock_get_clock_select`
unfoldable pub sysctl_clock_get_clock_select : Select → Registers → ℕ
sysctl_clock_get_clock_select which r = read_at r (select_read which)
