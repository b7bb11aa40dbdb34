-- ===== src/Sysctl/Switches.antt =====
-- The switches of src/drivers/sysctl.c: which bit-field each identifier stands for.
use k210_guard_bootloader.Prelude.{ℕ, Option, none, some}
use k210_guard_bootloader.Sysctl.Layout.{Field}
use k210_guard_bootloader.Sysctl.Fields.{
  aclk_divider_sel, aclk_sel, aes_clk_en, aes_reset, apb0_clk_en, apb0_clk_sel, apb1_clk_en,
  apb1_clk_sel, apb2_clk_en, apb2_clk_sel, cpu_clk_en, fpioa_clk_en, fpioa_reset, otp_clk_en,
  rom_clk_en, rom_gclk_threshold, rom_reset, sha_clk_en, sha_reset, soft_reset, spi0_clk_en,
  spi0_clk_threshold, spi0_reset, spi1_clk_en, spi1_clk_threshold, spi1_reset, spi2_clk_en,
  spi2_clk_threshold, spi2_reset, spi3_clk_en, spi3_clk_sel, spi3_clk_threshold,
  spi3_sample_clk_sel, sram0_clk_en, sram0_gclk_threshold, sram1_clk_en, sram1_gclk_threshold,
  timer0_clk_en, timer0_clk_sel, timer0_clk_threshold, timer0_reset, timer1_clk_en, timer1_clk_sel,
  timer1_clk_threshold, timer1_reset, timer2_clk_en, timer2_clk_sel, timer2_clk_threshold,
  timer2_reset,
}
use k210_guard_bootloader.Sysctl.PllFields.{
  pll_bypass0, pll_bypass1, pll_bypass2, pll_ckin_sel2, pll_out_en0, pll_out_en1, pll_out_en2,
}
use k210_guard_bootloader.Sysctl.Ids.{
  Clock, Select, Threshold, Reset, clock_aes, clock_apb0, clock_apb1, clock_apb2, clock_cpu,
  clock_fpioa, clock_otp, clock_pll0, clock_pll1, clock_pll2, clock_rom, clock_select_aclk,
  clock_select_pll0_bypass, clock_select_pll1_bypass, clock_select_pll2, clock_select_pll2_bypass,
  clock_select_spi3, clock_select_spi3_sample, clock_select_timer0, clock_select_timer1,
  clock_select_timer2, clock_sha, clock_spi0, clock_spi1, clock_spi2, clock_spi3, clock_sram0,
  clock_sram1, clock_timer0, clock_timer1, clock_timer2, reset_aes, reset_fpioa, reset_rom,
  reset_sha, reset_soc, reset_spi0, reset_spi1, reset_spi2, reset_timer0, reset_timer1,
  reset_timer2, threshold_aclk, threshold_apb0, threshold_apb1, threshold_apb2, threshold_rom,
  threshold_spi0, threshold_spi1, threshold_spi2, threshold_spi3, threshold_sram0, threshold_sram1,
  threshold_timer0, threshold_timer1, threshold_timer2,
}

-- The switch of `sysctl_reset_ctl`: the field that each reset writes.
unfoldable pub reset_field : Reset → Option Field
reset_field reset_soc = some soft_reset
reset_field reset_rom = some rom_reset
reset_field reset_spi0 = some spi0_reset
reset_field reset_spi1 = some spi1_reset
reset_field reset_spi2 = some spi2_reset
reset_field reset_aes = some aes_reset
reset_field reset_fpioa = some fpioa_reset
reset_field reset_timer0 = some timer0_reset
reset_field reset_timer1 = some timer1_reset
reset_field reset_timer2 = some timer2_reset
reset_field reset_sha = some sha_reset
reset_field _ = none

-- The switch of `sysctl_clock_bus_en`.
unfoldable pub bus_field : Clock → Option Field
bus_field clock_spi2 = some apb0_clk_en
bus_field clock_fpioa = some apb0_clk_en
bus_field clock_timer0 = some apb0_clk_en
bus_field clock_timer1 = some apb0_clk_en
bus_field clock_timer2 = some apb0_clk_en
bus_field clock_sha = some apb0_clk_en
bus_field clock_aes = some apb1_clk_en
bus_field clock_otp = some apb1_clk_en
bus_field clock_spi0 = some apb2_clk_en
bus_field clock_spi1 = some apb2_clk_en
bus_field _ = none

-- The switch of `sysctl_clock_device_en`.
unfoldable pub device_field : Clock → Option Field
device_field clock_pll0 = some pll_out_en0
device_field clock_pll1 = some pll_out_en1
device_field clock_pll2 = some pll_out_en2
device_field clock_cpu = some cpu_clk_en
device_field clock_sram0 = some sram0_clk_en
device_field clock_sram1 = some sram1_clk_en
device_field clock_apb0 = some apb0_clk_en
device_field clock_apb1 = some apb1_clk_en
device_field clock_apb2 = some apb2_clk_en
device_field clock_rom = some rom_clk_en
device_field clock_spi3 = some spi3_clk_en
device_field clock_spi2 = some spi2_clk_en
device_field clock_fpioa = some fpioa_clk_en
device_field clock_timer0 = some timer0_clk_en
device_field clock_timer1 = some timer1_clk_en
device_field clock_timer2 = some timer2_clk_en
device_field clock_sha = some sha_clk_en
device_field clock_aes = some aes_clk_en
device_field clock_otp = some otp_clk_en
device_field clock_spi0 = some spi0_clk_en
device_field clock_spi1 = some spi1_clk_en
device_field _ = none

-- The switch of `sysctl_clock_set_threshold`: field and mask.
unfoldable pub threshold_field : Threshold → Option (Field × ℕ)
threshold_field threshold_aclk = some (aclk_divider_sel, 0x03)
threshold_field threshold_apb0 = some (apb0_clk_sel, 0x07)
threshold_field threshold_apb1 = some (apb1_clk_sel, 0x07)
threshold_field threshold_apb2 = some (apb2_clk_sel, 0x07)
threshold_field threshold_sram0 = some (sram0_gclk_threshold, 0x0F)
threshold_field threshold_sram1 = some (sram1_gclk_threshold, 0x0F)
threshold_field threshold_rom = some (rom_gclk_threshold, 0x0F)
threshold_field threshold_spi0 = some (spi0_clk_threshold, 0xff)
threshold_field threshold_spi1 = some (spi1_clk_threshold, 0xff)
threshold_field threshold_spi2 = some (spi2_clk_threshold, 0xff)
threshold_field threshold_spi3 = some (spi3_clk_threshold, 0xff)
threshold_field threshold_timer0 = some (timer0_clk_threshold, 0xff)
threshold_field threshold_timer1 = some (timer1_clk_threshold, 0xff)
threshold_field threshold_timer2 = some (timer2_clk_threshold, 0xff)
threshold_field _ = none

-- The switch of `sysctl_clock_get_threshold`.
unfoldable pub threshold_read : Threshold → Option Field
threshold_read threshold_aclk = some aclk_divider_sel
threshold_read threshold_apb0 = some apb0_clk_sel
threshold_read threshold_apb1 = some apb1_clk_sel
threshold_read threshold_apb2 = some apb2_clk_sel
threshold_read threshold_sram0 = some sram0_gclk_threshold
threshold_read threshold_sram1 = some sram1_gclk_threshold
threshold_read threshold_rom = some rom_gclk_threshold
threshold_read threshold_spi0 = some spi0_clk_threshold
threshold_read threshold_spi1 = some spi1_clk_threshold
threshold_read threshold_spi2 = some spi2_clk_threshold
threshold_read threshold_spi3 = some spi3_clk_threshold
threshold_read threshold_timer0 = some timer0_clk_threshold
threshold_read threshold_timer1 = some timer1_clk_threshold
threshold_read threshold_timer2 = some timer2_clk_threshold
threshold_read _ = none

-- The switch of `sysctl_clock_set_clock_select`: field and mask.
unfoldable pub select_field : Select → Option (Field × ℕ)
select_field clock_select_pll0_bypass = some (pll_bypass0, 0x01)
select_field clock_select_pll1_bypass = some (pll_bypass1, 0x01)
select_field clock_select_pll2_bypass = some (pll_bypass2, 0x01)
select_field clock_select_aclk = some (aclk_sel, 0x01)
select_field clock_select_spi3 = some (spi3_clk_sel, 0x01)
select_field clock_select_timer0 = some (timer0_clk_sel, 0x01)
select_field clock_select_timer1 = some (timer1_clk_sel, 0x01)
select_field clock_select_timer2 = some (timer2_clk_sel, 0x01)
select_field clock_select_spi3_sample = some (spi3_sample_clk_sel, 0x01)
select_field clock_select_pll2 = some (pll_ckin_sel2, 0x03)
select_field _ = none

-- The switch of `sysctl_clock_get_clock_select`.
unfoldable pub select_read : Select → Option Field
select_read clock_select_pll0_bypass = some pll_bypass0
select_read clock_select_pll1_bypass = some pll_bypass1
select_read clock_select_pll2_bypass = some pll_bypass2
select_read clock_select_pll2 = some pll_ckin_sel2
select_read clock_select_aclk = some aclk_sel
select_read clock_select_spi3 = some spi3_clk_sel
select_read clock_select_timer0 = some timer0_clk_sel
select_read clock_select_timer1 = some timer1_clk_sel
select_read clock_select_timer2 = some timer2_clk_sel
select_read clock_select_spi3_sample = some spi3_sample_clk_sel
select_read _ = none
