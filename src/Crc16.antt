-- ===== src/Crc16.antt =====
-- src/cli/crc16.c: the checksum of the command `crc16`.
pub mod Linear
pub mod Bitwise
pub mod Tests
use k210_guard_bootloader.Prelude.{
  ℕ, zero, suc, ◌+◌, ◌-◌, ◌*◌, ◌/◌, ◌%◌, ◌^◌, bit_and, bit_xor, Bool, true, false, List, [], ◌∷◌,
}
use k210_guard_bootloader.Prelude.Tests.{◌==◌, if◌then◌else◌}
use k210_guard_bootloader.Prelude.Lists.{get_or}

-- `crc_tab16_init` and `crc_tab16`
pub record Crc : Type 0 where
  pub crc_tab16_init : Bool
  pub crc_tab16 : List ℕ

abbrev pub crc_poly_16 : ℕ
crc_poly_16 = 0xa001

-- The inner loop of `init_crc16_tab`, with the rounds that are left.
unfoldable pub entry_loop : ℕ → ℕ → ℕ → ℕ
entry_loop zero crc c = crc
entry_loop (suc left) crc c =
    entry_loop left
      (if bit_and (bit_xor crc c) 1 == 0 then crc / 2 else bit_xor (crc / 2) crc_poly_16) (c / 2)

-- The outer loop: the entries from `i` on.
unfoldable pub table_loop : ℕ → ℕ → List ℕ
table_loop zero i = []
table_loop (suc left) i = entry_loop 8 0 i ∷ table_loop left (i + 1)

unfoldable pub init_crc16_tab : Crc
init_crc16_tab = record { crc_tab16_init = true; crc_tab16 = table_loop 256 0 }

-- The loop of `crc_16`. The bytes are those of the string.
unfoldable pub crc_loop : List ℕ → ℕ → List ℕ → ℕ
crc_loop tab crc [] = crc
crc_loop tab crc (b ∷ bs) =
    crc_loop tab (bit_xor (crc / 2 ^ 8) (get_or tab (bit_and (bit_xor crc b) 0xff) 0)) bs

-- `crc_16` of a string that is not NULL.
unfoldable pub crc_16 : Crc → List ℕ → ℕ × Crc
crc_16 s input =
    let t = if s.crc_tab16_init then s else init_crc16_tab in (crc_loop t.crc_tab16 0 input, t)
