-- ===== src/Sysctl/Layout.antt =====
-- The registers of the system controller: the bit-fields of src/include/sysctl.h.
use k210_guard_bootloader.Prelude.{ℕ, ◌%◌, ◌^◌, Bool, List, [], ◌∷◌, ◌&&◌}
use k210_guard_bootloader.Prelude.Tests.{◌==◌, if◌then◌else◌}
use k210_guard_bootloader.Prelude.Lists.{get_or}

-- A register's number, and the widths of its bit-fields, from bit 0 on.
pub record Register : Type 0 where
  pub number : ℕ
  pub widths : List ℕ

abbrev pub sysctl_git_id : Register
sysctl_git_id = record { number = 0; widths = 32 ∷ [] }

abbrev pub sysctl_clk_freq : Register
sysctl_clk_freq = record { number = 1; widths = 32 ∷ [] }

abbrev pub sysctl_pll0 : Register
sysctl_pll0 = record { number = 2; widths = 4 ∷ 6 ∷ 4 ∷ 6 ∷ 1 ∷ 1 ∷ 1 ∷ 1 ∷ 1 ∷ 1 ∷ 1 ∷ 5 ∷ [] }

abbrev pub sysctl_pll1 : Register
sysctl_pll1 = record { number = 3; widths = 4 ∷ 6 ∷ 4 ∷ 6 ∷ 1 ∷ 1 ∷ 1 ∷ 1 ∷ 1 ∷ 1 ∷ 6 ∷ [] }

abbrev pub sysctl_pll2 : Register
sysctl_pll2 = record { number = 4; widths = 4 ∷ 6 ∷ 4 ∷ 6 ∷ 1 ∷ 1 ∷ 1 ∷ 1 ∷ 1 ∷ 1 ∷ 2 ∷ 4 ∷ [] }

abbrev pub sysctl_pll_lock : Register
sysctl_pll_lock = record {
  number = 6;
  widths = 2 ∷ 1 ∷ 1 ∷ 4 ∷ 2 ∷ 1 ∷ 1 ∷ 4 ∷ 2 ∷ 1 ∷ 1 ∷ 12 ∷ [];
}

abbrev pub sysctl_clk_sel0 : Register
sysctl_clk_sel0 = record { number = 8; widths = 1 ∷ 2 ∷ 3 ∷ 3 ∷ 3 ∷ 1 ∷ 1 ∷ 1 ∷ 1 ∷ 16 ∷ [] }

abbrev pub sysctl_clk_sel1 : Register
sysctl_clk_sel1 = record { number = 9; widths = 1 ∷ 30 ∷ 1 ∷ [] }

abbrev pub sysctl_clk_en_cent : Register
sysctl_clk_en_cent = record { number = 10; widths = 1 ∷ 1 ∷ 1 ∷ 1 ∷ 1 ∷ 1 ∷ 26 ∷ [] }

abbrev pub sysctl_clk_en_peri : Register
sysctl_clk_en_peri = record {
  number = 11;
  widths =
      1 ∷ 1 ∷ 1 ∷ 1 ∷ 1 ∷ 1 ∷ 1 ∷ 1 ∷ 1 ∷ 1 ∷ 1 ∷ 1 ∷ 1 ∷ 1 ∷ 1 ∷ 1 ∷ 1 ∷ 1 ∷ 1 ∷ 1 ∷ 1 ∷ 1 ∷ 1 ∷ 1
      ∷ 1 ∷ 1 ∷ 1 ∷ 1 ∷ 1 ∷ 1 ∷ 2 ∷ [];
}

abbrev pub sysctl_soft_reset : Register
sysctl_soft_reset = record { number = 12; widths = 1 ∷ 31 ∷ [] }

abbrev pub sysctl_peri_reset : Register
sysctl_peri_reset = record {
  number = 13;
  widths =
      1 ∷ 1 ∷ 1 ∷ 1 ∷ 1 ∷ 1 ∷ 1 ∷ 1 ∷ 1 ∷ 1 ∷ 1 ∷ 1 ∷ 1 ∷ 1 ∷ 1 ∷ 1 ∷ 1 ∷ 1 ∷ 1 ∷ 1 ∷ 1 ∷ 1 ∷ 1 ∷ 1
      ∷ 1 ∷ 1 ∷ 1 ∷ 2 ∷ 1 ∷ 2 ∷ [];
}

abbrev pub sysctl_clk_th0 : Register
sysctl_clk_th0 = record { number = 14; widths = 4 ∷ 4 ∷ 4 ∷ 4 ∷ 4 ∷ 12 ∷ [] }

abbrev pub sysctl_clk_th1 : Register
sysctl_clk_th1 = record { number = 15; widths = 8 ∷ 8 ∷ 8 ∷ 8 ∷ [] }

abbrev pub sysctl_clk_th2 : Register
sysctl_clk_th2 = record { number = 16; widths = 8 ∷ 8 ∷ 8 ∷ 8 ∷ [] }

-- A bit-field of a register: its position among the fields, and its width.
pub record Field : Type 0 where
  pub register : ℕ
  pub index : ℕ
  pub width : ℕ

abbrev pub field : Register → ℕ → Field
field r i = record { register = r.number; index = i; width = get_or r.widths i 0 }

-- The values of the fields, by register and position.
abbrev pub Registers : Type 0
Registers = ℕ → ℕ → ℕ

abbrev pub read : Registers → Field → ℕ
read r f = r f.register f.index

abbrev pub same_field : Field → Field → Bool
same_field f g = (f.register == g.register) && (f.index == g.index)

-- A field keeps the low bits of what is written.
unfoldable pub write : Registers → Field → ℕ → Registers
write r f v i j = if (i == f.register) && (j == f.index) then v % 2 ^ f.width else r i j
