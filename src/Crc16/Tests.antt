-- ===== src/Crc16/Tests.antt =====
-- The check value of src/cli/crc16.c's checksum: that of the digits 1 to 9 is 0xbb3d.
use k210_guard_bootloader.Prelude.{ℕ, ◌≡◌, refl, inl, false, List, [], ◌∷◌, arith}
use k210_guard_bootloader.Crc16.{Crc, entry_loop, table_loop, init_crc16_tab, crc_loop, crc_16}
use k210_guard_bootloader.Crc16.Bitwise.{crc_bitwise, crc_16-bitwise}

abbrev fresh : Crc
fresh = record { crc_tab16_init = false; crc_tab16 = [] }

abbrev digit_string : List ℕ
digit_string = 49 ∷ 50 ∷ 51 ∷ 52 ∷ 53 ∷ 54 ∷ 55 ∷ 56 ∷ 57 ∷ []

check_value : (crc_16 fresh digit_string).0 ≡ 0xbb3d
unfolding crc_16 init_crc16_tab table_loop entry_loop crc_loop
check_value = refl

crc_16-bitwise_example : crc_16 fresh digit_string ≡ (crc_bitwise 0 digit_string, init_crc16_tab)
crc_16-bitwise_example = crc_16-bitwise fresh digit_string (inl refl) (
  omega arith,
  (
    omega arith,
    (
      omega arith,
      (omega arith, (omega arith, (omega arith, (omega arith, (omega arith, (omega arith, tt)))))),
    ),
  ),
)
