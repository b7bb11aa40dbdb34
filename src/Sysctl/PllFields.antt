-- ===== src/Sysctl/PllFields.antt =====
-- The bit-fields of the PLLs that src/drivers/sysctl.c uses, by their names in
-- src/include/sysctl.h.
use k210_guard_bootloader.Sysctl.Layout.{
  Field, field, sysctl_pll0, sysctl_pll1, sysctl_pll2, sysctl_pll_lock,
}

abbrev pub clkr0 : Field
clkr0 = field sysctl_pll0 0

abbrev pub clkf0 : Field
clkf0 = field sysctl_pll0 1

abbrev pub clkod0 : Field
clkod0 = field sysctl_pll0 2

abbrev pub bwadj0 : Field
bwadj0 = field sysctl_pll0 3

abbrev pub pll_reset0 : Field
pll_reset0 = field sysctl_pll0 4

abbrev pub pll_pwrd0 : Field
pll_pwrd0 = field sysctl_pll0 5

abbrev pub pll_bypass0 : Field
pll_bypass0 = field sysctl_pll0 7

abbrev pub pll_out_en0 : Field
pll_out_en0 = field sysctl_pll0 9

abbrev pub clkr1 : Field
clkr1 = field sysctl_pll1 0

abbrev pub clkf1 : Field
clkf1 = field sysctl_pll1 1

abbrev pub clkod1 : Field
clkod1 = field sysctl_pll1 2

abbrev pub bwadj1 : Field
bwadj1 = field sysctl_pll1 3

abbrev pub pll_reset1 : Field
pll_reset1 = field sysctl_pll1 4

abbrev pub pll_pwrd1 : Field
pll_pwrd1 = field sysctl_pll1 5

abbrev pub pll_bypass1 : Field
pll_bypass1 = field sysctl_pll1 7

abbrev pub pll_out_en1 : Field
pll_out_en1 = field sysctl_pll1 9

abbrev pub clkr2 : Field
clkr2 = field sysctl_pll2 0

abbrev pub clkf2 : Field
clkf2 = field sysctl_pll2 1

abbrev pub clkod2 : Field
clkod2 = field sysctl_pll2 2

abbrev pub bwadj2 : Field
bwadj2 = field sysctl_pll2 3

abbrev pub pll_reset2 : Field
pll_reset2 = field sysctl_pll2 4

abbrev pub pll_pwrd2 : Field
pll_pwrd2 = field sysctl_pll2 5

abbrev pub pll_bypass2 : Field
pll_bypass2 = field sysctl_pll2 7

abbrev pub pll_out_en2 : Field
pll_out_en2 = field sysctl_pll2 9

abbrev pub pll_ckin_sel2 : Field
pll_ckin_sel2 = field sysctl_pll2 10

abbrev pub pll_lock0 : Field
pll_lock0 = field sysctl_pll_lock 0

abbrev pub pll_slip_clear0 : Field
pll_slip_clear0 = field sysctl_pll_lock 1

abbrev pub pll_lock1 : Field
pll_lock1 = field sysctl_pll_lock 4

abbrev pub pll_slip_clear1 : Field
pll_slip_clear1 = field sysctl_pll_lock 5

abbrev pub pll_lock2 : Field
pll_lock2 = field sysctl_pll_lock 8

abbrev pub pll_slip_clear2 : Field
pll_slip_clear2 = field sysctl_pll_lock 9
