-- ===== src/Sysctl/Tests.antt =====
-- The system controller from cleared registers, with PLLs that lock as soon as they have power.
use k210_guard_bootloader.Prelude.{ℕ, ◌*◌, ◌/◌, ◌≡◌, ◌≢◌, refl, Bool, ◌&&◌, arith}
use k210_guard_bootloader.Prelude.Tests.{◌==◌, if◌then◌else◌}
use k210_guard_bootloader.Prelude.Int.{pos}
use k210_guard_bootloader.Sysctl.{sysctl_clock_set_threshold, sysctl_clock_get_threshold}
use k210_guard_bootloader.Sysctl.Layout.{Registers}
use k210_guard_bootloader.Sysctl.Ids.{Pll, clock_otp, threshold_spi0, threshold_spi1}
use k210_guard_bootloader.Sysctl.Thresholds.{sysctl_clock_set_threshold_lem}
use k210_guard_bootloader.Sysctl.Frequency.{sysctl_clock_get_freq}
use k210_guard_bootloader.Sysctl.Domains.{sysctl_clock_get_freq-zero}

abbrev cleared : Registers
cleared i j = 0

abbrev fout : ℕ → ℕ → ℕ → ℕ → ℕ
fout f nr nf od = f / nr * nf / od

-- The PLL of this register has power, and is not held in reset nor bypassed.
abbrev up : ℕ → Registers → Bool
up k r = (r k 5 == 1) && (r k 4 == 0) && (r k 7 == 0)

abbrev lock : Registers → Registers
lock r i j =
    if (i == 6) && (j == 0)
    then (if up 2 r then 3 else 0)
    else if (i == 6) && (j == 4)
    then (if up 3 r then 1 else 0)
    else if (i == 6) && (j == 8)
    then (if up 4 r then 1 else 0)
    else r i j

abbrev polls : Pll → Registers → ℕ
polls pll r = 0

spi0_spi1 : threshold_spi0 ≢ threshold_spi1
spi0_spi1 e = ground (arith, e)

sysctl_clock_set_threshold_lem_example :
    let (code, t) = sysctl_clock_set_threshold threshold_spi0 0x105 cleared in
    (code ≡ pos 0)
    × (sysctl_clock_get_threshold threshold_spi0 t ≡ pos 5)
    × (sysctl_clock_get_threshold threshold_spi1 t
        ≡ sysctl_clock_get_threshold threshold_spi1 cleared)
sysctl_clock_set_threshold_lem_example =
    sysctl_clock_set_threshold_lem cleared 0x105 threshold_spi0 threshold_spi1 spi0_spi1

sysctl_clock_get_freq-zero_example : sysctl_clock_get_freq fout cleared clock_otp ≡ 0
sysctl_clock_get_freq-zero_example = sysctl_clock_get_freq-zero fout cleared clock_otp refl
