-- ===== src/Sysctl/Frequency.antt =====
-- The frequencies that src/drivers/sysctl.c computes from the registers.
use k210_guard_bootloader.Prelude.{ℕ, zero, suc, ◌+◌, ◌*◌, ◌/◌, ◌^◌, Option, none, some}
use k210_guard_bootloader.Prelude.Tests.{◌==◌, if◌then◌else◌}
use k210_guard_bootloader.Prelude.Words.{u32}
use k210_guard_bootloader.Sysctl.{threshold_value, sysctl_clock_get_clock_select}
use k210_guard_bootloader.Sysctl.Layout.{Registers, read}
use k210_guard_bootloader.Sysctl.PllFields.{
  clkr0, clkf0, clkod0, clkr1, clkf1, clkod1, clkr2, clkf2, clkod2, pll_ckin_sel2,
}
use k210_guard_bootloader.Sysctl.Ids.{
  Pll, pll0, pll1, pll2, pll_max, Source, source_in0, source_pll0, source_pll1, source_pll2,
  source_aclk, source_max, Clock, clock_pll0, clock_pll1, clock_pll2, clock_cpu, clock_sram0,
  clock_sram1, clock_apb0, clock_apb1, clock_apb2, clock_rom, clock_spi0, clock_spi1, clock_spi2,
  clock_spi3, clock_aes, clock_fpioa, clock_timer0, clock_timer1, clock_timer2, clock_sha,
  clock_otp, clock_aclk, clock_in0, Select, clock_select_aclk, clock_select_spi3,
  clock_select_timer0, clock_select_timer1, clock_select_timer2, Threshold, threshold_aclk,
  threshold_apb0, threshold_apb1, threshold_apb2, threshold_sram0, threshold_sram1, threshold_rom,
  threshold_spi0, threshold_spi1, threshold_spi2, threshold_spi3, threshold_timer0,
  threshold_timer1, threshold_timer2,
}

-- SYSCTRL_CLOCK_FREQ_IN0
abbrev pub freq_in0 : ℕ
freq_in0 = 26000000

-- `get_source_pll2`; none out of its bounds
unfoldable pub get_source_pll2 : ℕ → Option Source
get_source_pll2 zero = some source_in0
get_source_pll2 (suc zero) = some source_pll0
get_source_pll2 (suc (suc zero)) = some source_pll1
get_source_pll2 (suc (suc (suc n))) = none

-- `fout` is the arithmetic on `double`s in `sysctl_pll_get_freq`, converted to `uint32_t`:
-- FIN / NR * NF / OD.
module _ (fout : ℕ → ℕ → ℕ → ℕ → ℕ) (r : Registers) where
  -- The functions call each other: the results one level of calls below.
  pub record Frequencies : Type 0 where
    pub source : Source → ℕ
    pub clock : Clock → ℕ

  module _ (below : Frequencies) where
    -- The case SYSCTL_PLL2, with the input that the select stands for.
    unfoldable pub pll2_freq : Option Source → ℕ
    pll2_freq none = 0
    pll2_freq (some s) =
        fout (below.source s) (read r clkr2 + 1) (read r clkf2 + 1) (read r clkod2 + 1)

    -- `sysctl_pll_get_freq`
    unfoldable pub pll_get_freq : Pll → ℕ
    unfolding pll2_freq
    pll_get_freq pll0 =
        fout (below.source source_in0) (read r clkr0 + 1) (read r clkf0 + 1) (read r clkod0 + 1)
    pll_get_freq pll1 =
        fout (below.source source_in0) (read r clkr1 + 1) (read r clkf1 + 1) (read r clkod1 + 1)
    pll_get_freq pll2 = pll2_freq (get_source_pll2 (read r pll_ckin_sel2))
    pll_get_freq pll_max = 0

    -- `sysctl_clock_source_get_freq`
    unfoldable pub source_get_freq : Source → ℕ
    source_get_freq source_in0 = freq_in0
    source_get_freq source_pll0 = pll_get_freq pll0
    source_get_freq source_pll1 = pll_get_freq pll1
    source_get_freq source_pll2 = pll_get_freq pll2
    source_get_freq source_aclk = below.clock clock_aclk
    source_get_freq source_max = 0

    -- A clock from IN0 or PLL0, by a select; 0 for another value of it.
    unfoldable pub chosen : Select → ℕ → ℕ
    chosen which from_pll0 =
        let select = sysctl_clock_get_clock_select which r in
        if select == 0 then below.source source_in0 else if select == 1 then from_pll0 else 0

    -- A source divided by a threshold: gated, and even.
    unfoldable pub gated : ℕ → Threshold → ℕ
    gated source which = source / (threshold_value which r + 1)

    unfoldable pub even : ℕ → Threshold → ℕ
    even source which = source / ((threshold_value which r + 1) * 2)

    -- `sysctl_clock_get_freq`
    unfoldable pub clock_get_freq : Clock → ℕ
    unfolding chosen gated even
    clock_get_freq clock_in0 = below.source source_in0
    clock_get_freq clock_pll0 = below.source source_pll0
    clock_get_freq clock_pll1 = below.source source_pll1
    clock_get_freq clock_pll2 = below.source source_pll2
    clock_get_freq clock_cpu =
        chosen clock_select_aclk
          (u32 (below.source source_pll0 / (2 * 2 ^ threshold_value threshold_aclk r)))
    clock_get_freq clock_sram0 = gated (below.source source_aclk) threshold_sram0
    clock_get_freq clock_sram1 = gated (below.source source_aclk) threshold_sram1
    clock_get_freq clock_rom = gated (below.source source_aclk) threshold_rom
    clock_get_freq clock_apb0 = gated (below.source source_aclk) threshold_apb0
    clock_get_freq clock_apb1 = gated (below.source source_aclk) threshold_apb1
    clock_get_freq clock_apb2 = gated (below.source source_aclk) threshold_apb2
    clock_get_freq clock_spi0 = even (below.source source_pll0) threshold_spi0
    clock_get_freq clock_spi1 = even (below.source source_pll0) threshold_spi1
    clock_get_freq clock_spi2 = even (below.source source_pll0) threshold_spi2
    clock_get_freq clock_spi3 =
        even (chosen clock_select_spi3 (below.source source_pll0)) threshold_spi3
    clock_get_freq clock_timer0 =
        even (chosen clock_select_timer0 (below.source source_pll0)) threshold_timer0
    clock_get_freq clock_timer1 =
        even (chosen clock_select_timer1 (below.source source_pll0)) threshold_timer1
    clock_get_freq clock_timer2 =
        even (chosen clock_select_timer2 (below.source source_pll0)) threshold_timer2
    clock_get_freq clock_fpioa = below.clock clock_apb0
    clock_get_freq clock_sha = below.clock clock_apb0
    clock_get_freq clock_aes = below.clock clock_apb1
    clock_get_freq clock_otp = below.clock clock_apb1
    clock_get_freq _ = 0

  -- The functions with so many levels of calls.
  unfoldable pub frequencies : ℕ → Frequencies
  frequencies zero = record { source = λ s. 0; clock = λ c. 0 }
  frequencies (suc n) = record {
    source = source_get_freq (frequencies n);
    clock = clock_get_freq (frequencies n);
  }

  -- Four levels are all that the calls ever need (below).
  abbrev pub sysctl_clock_get_freq : Clock → ℕ
  sysctl_clock_get_freq = (frequencies 4).clock

  abbrev pub sysctl_clock_source_get_freq : Source → ℕ
  sysctl_clock_source_get_freq = (frequencies 4).source
