-- ===== src/Sysctl/Clocks.antt =====
-- The clock gates of src/drivers/sysctl.c.
use k210_guard_bootloader.Prelude.{ℕ, ◌≡◌, refl, Option, none, some}
use k210_guard_bootloader.Sysctl.{
  read_at, write_at, sysctl_clock_bus_en, sysctl_clock_device_en, no_clock, sysctl_clock_enable,
  sysctl_clock_disable,
}
use k210_guard_bootloader.Sysctl.Layout.{Field, Registers, write}
use k210_guard_bootloader.Sysctl.Ids.{Clock, clock_pll0}
use k210_guard_bootloader.Sysctl.Switches.{bus_field, device_field}

-- 1 for a clock that has the gate
abbrev pub has_gate : Option Field → ℕ
has_gate none = 0
has_gate (some f) = 1

-- `sysctl_clock_enable` opens the gate of a clock and the one of its bus, where it has these, and
-- `sysctl_clock_disable` then closes the clock's gate and leaves the bus running.
pub sysctl_clock_disable-enable :
    (clock : Clock) (r : Registers)
    → let on = (sysctl_clock_enable clock r).1 in
      let off = (sysctl_clock_disable clock on).1 in
      (read_at on (device_field clock) ≡ has_gate (device_field clock))
      × (read_at on (bus_field clock) ≡ has_gate (bus_field clock))
      × (read_at off (device_field clock) ≡ 0)
      × (read_at off (bus_field clock) ≡ has_gate (bus_field clock))
unfolding read_at write_at sysctl_clock_enable sysctl_clock_disable sysctl_clock_device_en
    sysctl_clock_bus_en no_clock write bus_field device_field
sysctl_clock_disable-enable clock_pll0 r = (refl, refl, refl, refl)
sysctl_clock_disable-enable _ r = (refl, refl, refl, refl)
