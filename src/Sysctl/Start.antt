-- ===== src/Sysctl/Start.antt =====
-- `sysctl_pll_fast_enable_pll` of src/drivers/sysctl.c: the waits end, and the CPU runs from PLL0.
use k210_guard_bootloader.Prelude.{ℕ, ◌≡◌, ◌≢◌, Bool, true, false}
use k210_guard_bootloader.Sysctl.Layout.{Registers, read}
use k210_guard_bootloader.Sysctl.PllFields.{
  pll_reset0, pll_pwrd0, pll_bypass0, pll_reset1, pll_pwrd1, pll_bypass1, pll_reset2, pll_pwrd2,
  pll_bypass2,
}
use k210_guard_bootloader.Sysctl.Ids.{Pll, pll0, pll1, pll2, pll_max}

-- The registers but the one of the lock bits, number 6.
abbrev pub Same : Registers → Registers → Type 0
Same r t = (i j : ℕ) → i ≢ 6 → t i j ≡ r i j

-- SYSCTL_PLL0 to SYSCTL_PLL2
abbrev pub is_pll : Pll → Bool
is_pll pll_max = false
is_pll _ = true

-- Power on, no reset and no bypass: what a PLL needs to lock, and to be used.
unfoldable pub IsPowered : Pll → Registers → Type 0
IsPowered pll0 r = (read r pll_pwrd0 ≡ 1) × (read r pll_reset0 ≡ 0) × (read r pll_bypass0 ≡ 0)
IsPowered pll1 r = (read r pll_pwrd1 ≡ 1) × (read r pll_reset1 ≡ 0) × (read r pll_bypass1 ≡ 0)
IsPowered pll2 r = (read r pll_pwrd2 ≡ 1) × (read r pll_reset2 ≡ 0) × (read r pll_bypass2 ≡ 0)
IsPowered pll_max r = Unit
