-- ===== src/Strto/Ctype.antt =====
-- src/bsp/ctype.c and src/include/ctype.h: the classes of characters.
use k210_guard_bootloader.Prelude.{ℕ, ◌+◌, ◌-◌, bit_and, Bool, not, ◌&&◌, List, [], ◌∷◌}
use k210_guard_bootloader.Prelude.Tests.{leb, ◌==◌, if◌then◌else◌}
use k210_guard_bootloader.Prelude.Lists.{get_or}

-- `_ctype`, sixteen characters in a row
unfoldable pub ctype : List ℕ
ctype =
    0x8 ∷ 0x8 ∷ 0x8 ∷ 0x8 ∷ 0x8 ∷ 0x8 ∷ 0x8 ∷ 0x8 ∷ 0x8 ∷ 0x28 ∷ 0x28 ∷ 0x28 ∷ 0x28 ∷ 0x28 ∷ 0x8
    ∷ 0x8 ∷ 0x8 ∷ 0x8 ∷ 0x8 ∷ 0x8 ∷ 0x8 ∷ 0x8 ∷ 0x8 ∷ 0x8 ∷ 0x8 ∷ 0x8 ∷ 0x8 ∷ 0x8 ∷ 0x8 ∷ 0x8 ∷ 0x8
    ∷ 0x8 ∷ 0xa0 ∷ 0x10 ∷ 0x10 ∷ 0x10 ∷ 0x10 ∷ 0x10 ∷ 0x10 ∷ 0x10 ∷ 0x10 ∷ 0x10 ∷ 0x10 ∷ 0x10 ∷ 0x10
    ∷ 0x10 ∷ 0x10 ∷ 0x10 ∷ 0x4 ∷ 0x4 ∷ 0x4 ∷ 0x4 ∷ 0x4 ∷ 0x4 ∷ 0x4 ∷ 0x4 ∷ 0x4 ∷ 0x4 ∷ 0x10 ∷ 0x10
    ∷ 0x10 ∷ 0x10 ∷ 0x10 ∷ 0x10 ∷ 0x10 ∷ 0x41 ∷ 0x41 ∷ 0x41 ∷ 0x41 ∷ 0x41 ∷ 0x41 ∷ 0x1 ∷ 0x1 ∷ 0x1
    ∷ 0x1 ∷ 0x1 ∷ 0x1 ∷ 0x1 ∷ 0x1 ∷ 0x1 ∷ 0x1 ∷ 0x1 ∷ 0x1 ∷ 0x1 ∷ 0x1 ∷ 0x1 ∷ 0x1 ∷ 0x1 ∷ 0x1 ∷ 0x1
    ∷ 0x1 ∷ 0x10 ∷ 0x10 ∷ 0x10 ∷ 0x10 ∷ 0x10 ∷ 0x10 ∷ 0x42 ∷ 0x42 ∷ 0x42 ∷ 0x42 ∷ 0x42 ∷ 0x42 ∷ 0x2
    ∷ 0x2 ∷ 0x2 ∷ 0x2 ∷ 0x2 ∷ 0x2 ∷ 0x2 ∷ 0x2 ∷ 0x2 ∷ 0x2 ∷ 0x2 ∷ 0x2 ∷ 0x2 ∷ 0x2 ∷ 0x2 ∷ 0x2 ∷ 0x2
    ∷ 0x2 ∷ 0x2 ∷ 0x2 ∷ 0x10 ∷ 0x10 ∷ 0x10 ∷ 0x10 ∷ 0x8 ∷ 0x0 ∷ 0x0 ∷ 0x0 ∷ 0x0 ∷ 0x0 ∷ 0x0 ∷ 0x0
    ∷ 0x0 ∷ 0x0 ∷ 0x0 ∷ 0x0 ∷ 0x0 ∷ 0x0 ∷ 0x0 ∷ 0x0 ∷ 0x0 ∷ 0x0 ∷ 0x0 ∷ 0x0 ∷ 0x0 ∷ 0x0 ∷ 0x0 ∷ 0x0
    ∷ 0x0 ∷ 0x0 ∷ 0x0 ∷ 0x0 ∷ 0x0 ∷ 0x0 ∷ 0x0 ∷ 0x0 ∷ 0x0 ∷ 0xa0 ∷ 0x10 ∷ 0x10 ∷ 0x10 ∷ 0x10 ∷ 0x10
    ∷ 0x10 ∷ 0x10 ∷ 0x10 ∷ 0x10 ∷ 0x10 ∷ 0x10 ∷ 0x10 ∷ 0x10 ∷ 0x10 ∷ 0x10 ∷ 0x10 ∷ 0x10 ∷ 0x10
    ∷ 0x10 ∷ 0x10 ∷ 0x10 ∷ 0x10 ∷ 0x10 ∷ 0x10 ∷ 0x10 ∷ 0x10 ∷ 0x10 ∷ 0x10 ∷ 0x10 ∷ 0x10 ∷ 0x10 ∷ 0x1
    ∷ 0x1 ∷ 0x1 ∷ 0x1 ∷ 0x1 ∷ 0x1 ∷ 0x1 ∷ 0x1 ∷ 0x1 ∷ 0x1 ∷ 0x1 ∷ 0x1 ∷ 0x1 ∷ 0x1 ∷ 0x1 ∷ 0x1 ∷ 0x1
    ∷ 0x1 ∷ 0x1 ∷ 0x1 ∷ 0x1 ∷ 0x1 ∷ 0x1 ∷ 0x10 ∷ 0x1 ∷ 0x1 ∷ 0x1 ∷ 0x1 ∷ 0x1 ∷ 0x1 ∷ 0x1 ∷ 0x2 ∷ 0x2
    ∷ 0x2 ∷ 0x2 ∷ 0x2 ∷ 0x2 ∷ 0x2 ∷ 0x2 ∷ 0x2 ∷ 0x2 ∷ 0x2 ∷ 0x2 ∷ 0x2 ∷ 0x2 ∷ 0x2 ∷ 0x2 ∷ 0x2 ∷ 0x2
    ∷ 0x2 ∷ 0x2 ∷ 0x2 ∷ 0x2 ∷ 0x2 ∷ 0x2 ∷ 0x10 ∷ 0x2 ∷ 0x2 ∷ 0x2 ∷ 0x2 ∷ 0x2 ∷ 0x2 ∷ 0x2 ∷ 0x2 ∷ []

-- `__ismask(c) & mask` is not 0
unfoldable pub ismask : ℕ → ℕ → Bool
ismask mask c = not (bit_and (get_or ctype c 0) mask == 0)

unfoldable pub isdigit : ℕ → Bool
isdigit c = ismask 0x04 c

unfoldable pub islower : ℕ → Bool
islower c = ismask 0x02 c

unfoldable pub isupper : ℕ → Bool
isupper c = ismask 0x01 c

unfoldable pub isxdigit : ℕ → Bool
isxdigit c = ismask 0x44 c

unfoldable pub tolower : ℕ → ℕ
tolower c = if isupper c then c + (97 - 65) else c

unfoldable pub toupper : ℕ → ℕ
toupper c = if islower c then c - (97 - 65) else c

abbrev pub between : ℕ → ℕ → ℕ → Bool
between low high c = leb low c && leb c high

-- The value of a hexadecimal digit, in either case
abbrev pub hex_value : ℕ → ℕ
hex_value c = if between 48 57 c then c - 48 else if between 65 70 c then c - 55 else c - 87
