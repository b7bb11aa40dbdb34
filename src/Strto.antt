-- ===== src/Strto.antt =====
-- src/bsp/strto.c: numbers from strings.
pub mod Ctype
pub mod Digits
pub mod Tests
use k210_guard_bootloader.Prelude.{
  ℕ, zero, suc, ◌+◌, ◌-◌, ◌*◌, ◌%◌, ◌^◌, Bool, true, false, ◌&&◌, List, [], ◌∷◌,
}
use k210_guard_bootloader.Prelude.Tests.{ltb, ◌==◌, if◌then◌else◌}
use k210_guard_bootloader.Prelude.Lists.{get_or, drop}
use k210_guard_bootloader.Prelude.Words.{u64}
use k210_guard_bootloader.Strto.Ctype.{isdigit, islower, isxdigit, tolower, toupper}

-- `_parse_integer_fixup_radix`. A string is its characters before the null character, and reads as
-- that behind its end.
unfoldable pub parse_integer_fixup_radix : List ℕ → ℕ → ℕ × List ℕ
parse_integer_fixup_radix s base =
    let base' =
      if base == 0
      then (if get_or s 0 0 == 48
          then (if tolower (get_or s 1 0) == 120 && isxdigit (get_or s 2 0) then 16 else 8)
          else 10)
      else base in
    if base' == 16 && (get_or s 0 0 == 48 && tolower (get_or s 1 0) == 120)
    then (base', drop 2 s)
    else (base', s)

-- `value` of a character in `simple_strtoul`
unfoldable pub value_of : ℕ → ℕ
value_of c = if isdigit c then c - 48 else (if islower c then toupper c else c) - 65 + 10

-- The test of the loop
unfoldable pub goes_on : ℕ → ℕ → Bool
goes_on base c = isxdigit c && ltb (value_of c) base

-- The loop: the result, and the rest of the string.
unfoldable pub strtoul_loop : ℕ → ℕ → List ℕ → ℕ × List ℕ
strtoul_loop base result [] = (result, [])
strtoul_loop base result (c ∷ cs) =
    let rest = strtoul_loop base (u64 (result * base + value_of c)) cs in
    if goes_on base c then rest else (result, c ∷ cs)

-- `simple_strtoul`, with what it stores at `endp`
unfoldable pub simple_strtoul : List ℕ → ℕ → ℕ × List ℕ
simple_strtoul cp base =
    let (base', s) = parse_integer_fixup_radix cp base in strtoul_loop base' 0 s
