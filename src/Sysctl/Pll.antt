-- ===== src/Sysctl/Pll.antt =====
-- The PLLs of src/drivers/sysctl.c: power, lock, and the set-up that the boot loader makes.
use k210_guard_bootloader.Prelude.{ℕ, zero, suc, bit_and, Option, none, some}
use k210_guard_bootloader.Prelude.Tests.{◌==◌, if◌then◌else◌, ◌>>=◌}
use k210_guard_bootloader.Prelude.Int.{ℤ, pos, negsuc}
use k210_guard_bootloader.Sysctl.{sysctl_clock_enable, sysctl_clock_set_clock_select}
use k210_guard_bootloader.Sysctl.Layout.{Field, Registers, read, write}
use k210_guard_bootloader.Sysctl.PllFields.{
  clkr0, clkf0, clkod0, bwadj0, pll_reset0, pll_pwrd0, pll_bypass0, clkr1, clkf1, clkod1, bwadj1,
  pll_reset1, pll_pwrd1, pll_bypass1, clkr2, clkf2, clkod2, bwadj2, pll_reset2, pll_pwrd2,
  pll_bypass2, pll_lock0, pll_lock1, pll_lock2, pll_slip_clear0, pll_slip_clear1, pll_slip_clear2,
}
use k210_guard_bootloader.Sysctl.Ids.{
  Pll, pll0, pll1, pll2, pll_max, clock_pll0, clock_pll1, clock_pll2, clock_select_aclk,
}

-- `sysctl_pll_is_lock`
unfoldable pub sysctl_pll_is_lock : Pll → Registers → ℕ
sysctl_pll_is_lock pll0 r = if read r pll_lock0 == 3 then 1 else 0
sysctl_pll_is_lock pll1 r = bit_and (read r pll_lock1) 1
sysctl_pll_is_lock pll2 r = bit_and (read r pll_lock2) 1
sysctl_pll_is_lock pll_max r = 0

-- `sysctl_pll_clear_slip`
unfoldable pub sysctl_pll_clear_slip : Pll → Registers → ℤ × Registers
sysctl_pll_clear_slip pll_max r = (negsuc 0, r)
sysctl_pll_clear_slip pll0 r =
    let t = write r pll_slip_clear0 1 in
    (if sysctl_pll_is_lock pll0 t == 0 then negsuc 0 else pos 0, t)
sysctl_pll_clear_slip pll1 r =
    let t = write r pll_slip_clear1 1 in
    (if sysctl_pll_is_lock pll1 t == 0 then negsuc 0 else pos 0, t)
sysctl_pll_clear_slip pll2 r =
    let t = write r pll_slip_clear2 1 in
    (if sysctl_pll_is_lock pll2 t == 0 then negsuc 0 else pos 0, t)

-- The writes of a case of `sysctl_pll_enable`: bypass off, power on, then a pulse of the reset.
unfoldable pub power_on : Field → Field → Field → Registers → Registers
power_on bypass pwrd reset r =
    let t = write (write r bypass 0) pwrd 1 in write (write (write t reset 0) reset 1) reset 0

-- `sysctl_pll_enable`
unfoldable pub sysctl_pll_enable : Pll → Registers → ℤ × Registers
sysctl_pll_enable pll0 r = (pos 0, power_on pll_bypass0 pll_pwrd0 pll_reset0 r)
sysctl_pll_enable pll1 r = (pos 0, power_on pll_bypass1 pll_pwrd1 pll_reset1 r)
sysctl_pll_enable pll2 r = (pos 0, power_on pll_bypass2 pll_pwrd2 pll_reset2 r)
sysctl_pll_enable pll_max r = (negsuc 0, r)

-- `sysctl_pll_disable`
unfoldable pub sysctl_pll_disable : Pll → Registers → ℤ × Registers
sysctl_pll_disable pll0 r = (pos 0, write (write r pll_bypass0 1) pll_pwrd0 0)
sysctl_pll_disable pll1 r = (pos 0, write (write r pll_bypass1 1) pll_pwrd1 0)
sysctl_pll_disable pll2 r = (pos 0, write (write r pll_bypass2 1) pll_pwrd2 0)
sysctl_pll_disable pll_max r = (negsuc 0, r)

-- The dividers and the bandwidth of a PLL, written together.
unfoldable pub set_dividers : Field → Field → Field → Field → ℕ → ℕ → ℕ → ℕ → Registers → Registers
set_dividers clkr clkf clkod bwadj nr nf od nb r =
    write (write (write (write r clkr nr) clkf nf) clkod od) bwadj nb

-- `sysctl_pll_fast_enable_pll` up to its first wait
unfoldable pub started : Registers → Registers
started r =
    let t = set_dividers clkr0 clkf0 clkod0 bwadj0 0 60 1 60 r in
    let u = set_dividers clkr1 clkf1 clkod1 bwadj1 0 59 3 59 t in
    let v = set_dividers clkr2 clkf2 clkod2 bwadj2 0 59 3 59 u in
    (sysctl_pll_enable pll2 (sysctl_pll_enable pll1 (sysctl_pll_enable pll0 v).1).1).1

-- and from its last wait on
unfoldable pub selected : Registers → Registers
selected r =
    let t =
      (sysctl_clock_enable clock_pll2
        (sysctl_clock_enable clock_pll1 (sysctl_clock_enable clock_pll0 r).1).1).1 in
    (sysctl_clock_set_clock_select clock_select_aclk 1 t).1

-- `settle` is what the hardware does to the registers before the next poll.
module _ (settle : Registers → Registers) where
  -- `while (sysctl_pll_is_lock(pll) == 0) sysctl_pll_clear_slip(pll);`, on fuel
  unfoldable pub wait_lock : ℕ → Pll → Registers → Option Registers
  wait_lock zero pll r = none
  wait_lock (suc fuel) pll r =
      let t = settle r in
      let rest = wait_lock fuel pll (sysctl_pll_clear_slip pll t).1 in
      if sysctl_pll_is_lock pll t == 0 then rest else some t

  -- `sysctl_pll_fast_enable_pll`, which returns 0
  unfoldable pub sysctl_pll_fast_enable_pll : ℕ → Registers → Option Registers
  sysctl_pll_fast_enable_pll fuel r = do
    t ← wait_lock fuel pll0 (started r)
    u ← wait_lock fuel pll1 t
    v ← wait_lock fuel pll2 u
    some (selected v)
