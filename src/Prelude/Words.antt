-- ===== src/Prelude/Words.antt =====
-- C's unsigned words as numbers: what wraps is written out, and the bytes of a word.
use Prim.Native.Nat.{ℕ, ◌+◌, ◌*◌, ◌/◌, ◌%◌, ◌<◌, ◌^◌}
use mathlib.Core.Path.{◌≡◌}
use mathlib.Core.List.{List, [], ◌∷◌}
use native.Mathlib.Omega.{arith}
use k210_guard_bootloader.Prelude.Lists.{get_or}

-- Conversion to `uint8_t`, `uint32_t` and `uint64_t`.
abbrev pub u8 : ℕ → ℕ
u8 x = x % 2 ^ 8

abbrev pub u32 : ℕ → ℕ
u32 x = x % 2 ^ 32

abbrev pub u64 : ℕ → ℕ
u64 x = x % 2 ^ 64

-- The four bytes of a `uint32_t` in memory, lowest first, and back from an array of bytes.
unfoldable pub bytes_of32 : ℕ → List ℕ
bytes_of32 x = x % 256 ∷ x / 2 ^ 8 % 256 ∷ x / 2 ^ 16 % 256 ∷ x / 2 ^ 24 % 256 ∷ []

unfoldable pub word32 : List ℕ → ℕ
word32 bs = get_or bs 0 0 + get_or bs 1 0 * 2 ^ 8 + get_or bs 2 0 * 2 ^ 16 + get_or bs 3 0 * 2 ^ 24

-- A word read from four bytes is stored as the same bytes.
pub bytes_of32-word32 :
    (b0 b1 b2 b3 : ℕ)
    → b0 < 256
    → b1 < 256
    → b2 < 256
    → b3 < 256
    → bytes_of32 (word32 (b0 ∷ b1 ∷ b2 ∷ b3 ∷ [])) ≡ b0 ∷ b1 ∷ b2 ∷ b3 ∷ []
unfolding bytes_of32 word32
bytes_of32-word32 b0 b1 b2 b3 h0 h1 h2 h3 = ground arith
