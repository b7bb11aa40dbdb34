-- ===== src/Sysctl/Domains.antt =====
-- What `sysctl_clock_get_freq` of src/drivers/sysctl.c returns for the clocks of each domain.
use k210_guard_bootloader.Prelude.{
  ℕ, zero, suc, ◌≤◌, ◌≡◌, refl, ap, fun_ext, Bool, true, false, arith,
}
use k210_guard_bootloader.Sysctl.Layout.{Registers, read}
use k210_guard_bootloader.Sysctl.PllFields.{pll_ckin_sel2}
use k210_guard_bootloader.Sysctl.Ids.{
  Clock, clock_sram0, clock_sram1, clock_apb0, clock_apb1, clock_apb2, clock_rom, clock_aes,
  clock_fpioa, clock_sha, clock_otp, clock_aclk, Source, source_pll2, source_pll0, source_pll1, Pll,
  pll0, pll1, pll2,
}
use k210_guard_bootloader.Sysctl.Frequency.{
  Frequencies, get_source_pll2, pll2_freq, gated, even, chosen, pll_get_freq, source_get_freq,
  clock_get_freq, frequencies, sysctl_clock_get_freq,
}

-- The clocks derived from ACLK.
abbrev pub from_aclk : Clock → Bool
from_aclk clock_aclk = true
from_aclk clock_sram0 = true
from_aclk clock_sram1 = true
from_aclk clock_rom = true
from_aclk clock_apb0 = true
from_aclk clock_apb1 = true
from_aclk clock_apb2 = true
from_aclk clock_fpioa = true
from_aclk clock_sha = true
from_aclk clock_aes = true
from_aclk clock_otp = true
from_aclk _ = false

module _ (fout : ℕ → ℕ → ℕ → ℕ → ℕ) (r : Registers) where
  -- Whatever the registers hold, `sysctl_clock_get_freq` returns 0 for ACLK and for every clock
  -- that is derived from it.
  pub sysctl_clock_get_freq-zero :
      (clock : Clock) → from_aclk clock ≡ true → sysctl_clock_get_freq fout r clock ≡ 0
  unfolding frequencies clock_get_freq source_get_freq gated
  sysctl_clock_get_freq-zero clock_aclk h = refl
  sysctl_clock_get_freq-zero _ h = ground (arith, h)

  at_select :
      (n x : ℕ)
      → pll2_freq fout r (frequencies fout r (suc (suc n))) (get_source_pll2 x)
        ≡ pll2_freq fout r (frequencies fout r 2) (get_source_pll2 x)
  unfolding frequencies pll2_freq pll_get_freq source_get_freq get_source_pll2
  at_select n zero = refl
  at_select n (suc zero) = refl
  at_select n (suc (suc zero)) = refl
  at_select n (suc (suc (suc x))) = refl

  pll-stable :
      (n : ℕ) (pll : Pll)
      → pll_get_freq fout r (frequencies fout r (suc (suc n))) pll
        ≡ pll_get_freq fout r (frequencies fout r 2) pll
  unfolding frequencies pll_get_freq source_get_freq
  pll-stable n pll0 = refl
  pll-stable n pll2 = at_select n (read r pll_ckin_sel2)
  pll-stable n _ = refl

  source-stable :
      (n : ℕ) (source : Source)
      → (frequencies fout r (suc (suc (suc n)))).source source
        ≡ (frequencies fout r 3).source source
  unfolding frequencies source_get_freq clock_get_freq
  source-stable n source_pll0 = pll-stable n pll0
  source-stable n source_pll1 = pll-stable n pll1
  source-stable n source_pll2 = pll-stable n pll2
  source-stable n _ = refl

  sources :
      (n : ℕ) → (frequencies fout r (suc (suc (suc n)))).source ≡ (frequencies fout r 3).source
  sources n = fun_ext (source-stable n)

  clock_cong :
      (b d : Frequencies fout r)
      → b.source ≡ d.source
      → b.clock clock_apb0 ≡ d.clock clock_apb0
      → b.clock clock_apb1 ≡ d.clock clock_apb1
      → (clock : Clock) → clock_get_freq fout r b clock ≡ clock_get_freq fout r d clock
  unfolding clock_get_freq chosen even gated
  clock_cong b d e apb0 apb1 clock_fpioa = apb0
  clock_cong b d e apb0 apb1 clock_sha = apb0
  clock_cong b d e apb0 apb1 clock_aes = apb1
  clock_cong b d e apb0 apb1 clock_otp = apb1
  clock_cong b d e apb0 apb1 clock =
      ap (λ s. clock_get_freq fout r (record { source = s; clock = λ c. 0 }) clock) e

  -- x
  pub sysctl_clock_get_freq-depth :
      (n : ℕ) (clock : Clock)
      → 4 ≤ n
      → (frequencies fout r n).clock clock ≡ sysctl_clock_get_freq fout r clock
  unfolding frequencies clock_get_freq source_get_freq
  sysctl_clock_get_freq-depth (suc (suc (suc (suc n)))) clock h =
      clock_cong (frequencies fout r (suc (suc (suc n)))) (frequencies fout r 3) (sources n) refl
        refl clock
  sysctl_clock_get_freq-depth zero clock h = absurd (omega (arith, h))
  sysctl_clock_get_freq-depth (suc zero) clock h = absurd (omega (arith, h))
  sysctl_clock_get_freq-depth (suc (suc zero)) clock h = absurd (omega (arith, h))
  sysctl_clock_get_freq-depth (suc (suc (suc zero))) clock h = absurd (omega (arith, h))
