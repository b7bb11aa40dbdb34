-- ===== src/Strto/Tests.antt =====
-- Strings that src/bsp/strto.c reads.
use k210_guard_bootloader.Prelude.{◌≡◌, refl, [], ◌∷◌}
use k210_guard_bootloader.Strto.{simple_strtoul}
use k210_guard_bootloader.Strto.Digits.{simple_strtoul-hex}

-- "0x1Fg"

-- "30000"
simple_strtoul-hex_example : simple_strtoul (51 ∷ 48 ∷ 48 ∷ 48 ∷ 48 ∷ []) 16 ≡ (0x30000, [])
simple_strtoul-hex_example = simple_strtoul-hex (51 ∷ 48 ∷ 48 ∷ 48 ∷ 48 ∷ []) refl
