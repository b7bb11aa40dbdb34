-- ===== src/Sysctl/Fields.antt =====
-- The bit-fields that src/drivers/sysctl.c uses, by their names in src/include/sysctl.h.
use k210_guard_bootloader.Sysctl.Layout.{
  Field, field, sysctl_git_id, sysctl_clk_freq, sysctl_clk_sel0, sysctl_clk_sel1,
  sysctl_clk_en_cent, sysctl_clk_en_peri, sysctl_soft_reset, sysctl_peri_reset, sysctl_clk_th0,
  sysctl_clk_th1, sysctl_clk_th2,
}

abbrev pub git_id : Field
git_id = field sysctl_git_id 0

abbrev pub clk_freq : Field
clk_freq = field sysctl_clk_freq 0

abbrev pub aclk_sel : Field
aclk_sel = field sysctl_clk_sel0 0

abbrev pub aclk_divider_sel : Field
aclk_divider_sel = field sysctl_clk_sel0 1

abbrev pub apb0_clk_sel : Field
apb0_clk_sel = field sysctl_clk_sel0 2

abbrev pub apb1_clk_sel : Field
apb1_clk_sel = field sysctl_clk_sel0 3

abbrev pub apb2_clk_sel : Field
apb2_clk_sel = field sysctl_clk_sel0 4

abbrev pub spi3_clk_sel : Field
spi3_clk_sel = field sysctl_clk_sel0 5

abbrev pub timer0_clk_sel : Field
timer0_clk_sel = field sysctl_clk_sel0 6

abbrev pub timer1_clk_sel : Field
timer1_clk_sel = field sysctl_clk_sel0 7

abbrev pub timer2_clk_sel : Field
timer2_clk_sel = field sysctl_clk_sel0 8

abbrev pub spi3_sample_clk_sel : Field
spi3_sample_clk_sel = field sysctl_clk_sel1 0

abbrev pub cpu_clk_en : Field
cpu_clk_en = field sysctl_clk_en_cent 0

abbrev pub sram0_clk_en : Field
sram0_clk_en = field sysctl_clk_en_cent 1

abbrev pub sram1_clk_en : Field
sram1_clk_en = field sysctl_clk_en_cent 2

abbrev pub apb0_clk_en : Field
apb0_clk_en = field sysctl_clk_en_cent 3

abbrev pub apb1_clk_en : Field
apb1_clk_en = field sysctl_clk_en_cent 4

abbrev pub apb2_clk_en : Field
apb2_clk_en = field sysctl_clk_en_cent 5

abbrev pub rom_clk_en : Field
rom_clk_en = field sysctl_clk_en_peri 0

abbrev pub spi0_clk_en : Field
spi0_clk_en = field sysctl_clk_en_peri 6

abbrev pub spi1_clk_en : Field
spi1_clk_en = field sysctl_clk_en_peri 7

abbrev pub spi2_clk_en : Field
spi2_clk_en = field sysctl_clk_en_peri 8

abbrev pub spi3_clk_en : Field
spi3_clk_en = field sysctl_clk_en_peri 9

abbrev pub aes_clk_en : Field
aes_clk_en = field sysctl_clk_en_peri 19

abbrev pub fpioa_clk_en : Field
fpioa_clk_en = field sysctl_clk_en_peri 20

abbrev pub timer0_clk_en : Field
timer0_clk_en = field sysctl_clk_en_peri 21

abbrev pub timer1_clk_en : Field
timer1_clk_en = field sysctl_clk_en_peri 22

abbrev pub timer2_clk_en : Field
timer2_clk_en = field sysctl_clk_en_peri 23

abbrev pub sha_clk_en : Field
sha_clk_en = field sysctl_clk_en_peri 26

abbrev pub otp_clk_en : Field
otp_clk_en = field sysctl_clk_en_peri 27

abbrev pub soft_reset : Field
soft_reset = field sysctl_soft_reset 0

abbrev pub rom_reset : Field
rom_reset = field sysctl_peri_reset 0

abbrev pub spi0_reset : Field
spi0_reset = field sysctl_peri_reset 6

abbrev pub spi1_reset : Field
spi1_reset = field sysctl_peri_reset 7

abbrev pub spi2_reset : Field
spi2_reset = field sysctl_peri_reset 8

abbrev pub spi3_reset : Field
spi3_reset = field sysctl_peri_reset 9

abbrev pub aes_reset : Field
aes_reset = field sysctl_peri_reset 19

abbrev pub fpioa_reset : Field
fpioa_reset = field sysctl_peri_reset 20

abbrev pub timer0_reset : Field
timer0_reset = field sysctl_peri_reset 21

abbrev pub timer1_reset : Field
timer1_reset = field sysctl_peri_reset 22

abbrev pub timer2_reset : Field
timer2_reset = field sysctl_peri_reset 23

abbrev pub sha_reset : Field
sha_reset = field sysctl_peri_reset 26

abbrev pub sram0_gclk_threshold : Field
sram0_gclk_threshold = field sysctl_clk_th0 0

abbrev pub sram1_gclk_threshold : Field
sram1_gclk_threshold = field sysctl_clk_th0 1

abbrev pub rom_gclk_threshold : Field
rom_gclk_threshold = field sysctl_clk_th0 4

abbrev pub spi0_clk_threshold : Field
spi0_clk_threshold = field sysctl_clk_th1 0

abbrev pub spi1_clk_threshold : Field
spi1_clk_threshold = field sysctl_clk_th1 1

abbrev pub spi2_clk_threshold : Field
spi2_clk_threshold = field sysctl_clk_th1 2

abbrev pub spi3_clk_threshold : Field
spi3_clk_threshold = field sysctl_clk_th1 3

abbrev pub timer0_clk_threshold : Field
timer0_clk_threshold = field sysctl_clk_th2 0

abbrev pub timer1_clk_threshold : Field
timer1_clk_threshold = field sysctl_clk_th2 1

abbrev pub timer2_clk_threshold : Field
timer2_clk_threshold = field sysctl_clk_th2 2
