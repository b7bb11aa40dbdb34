-- ===== src/Strto/Digits.antt =====
-- What `simple_strtoul` of src/bsp/strto.c makes of a run of hexadecimal digits.
use k210_guard_bootloader.Prelude.{
  ℕ, ◌+◌, ◌*◌, ◌<◌, ◌≡◌, refl, sym, ap, ◌∙◌, Bool, true, false, not, ◌&&◌, ◌||◌, List, [], ◌∷◌,
  ◌++◌, append-nil, arith,
}
use k210_guard_bootloader.Prelude.Tests.{ltb, ◌==◌, ==_iff, if◌then◌else◌}
use k210_guard_bootloader.Prelude.Lists.{get_or}
use k210_guard_bootloader.Prelude.Bits.{every_below, every_below-at}
use k210_guard_bootloader.Prelude.Words.{u64}
use k210_guard_bootloader.Strto.Ctype.{
  ctype, ismask, isdigit, islower, isupper, isxdigit, tolower, toupper, between, hex_value,
}
use k210_guard_bootloader.Strto.{
  parse_integer_fixup_radix, value_of, goes_on, strtoul_loop, simple_strtoul,
}

abbrev pub is_hex : ℕ → Bool
is_hex c = between 48 57 c || (between 65 70 c || between 97 102 c)

same_bool : Bool → Bool → Bool
same_bool a b = if a then b else not b

same_bool-eq : (a b : Bool) → same_bool a b ≡ true → a ≡ b
unfolding same_bool
same_bool-eq true true h = refl
same_bool-eq false false h = refl
same_bool-eq true false h = sym h
same_bool-eq false true h = h

hex_table :
    every_below
      (λ c. same_bool (goes_on 16 c) (is_hex c) && (not (is_hex c) || value_of c == hex_value c))
      256
    ≡ true
unfolding every_below same_bool goes_on value_of ctype ismask isdigit islower isxdigit toupper
hex_table = refl

hex_facts :
    (c : ℕ)
    → c < 256
    → (goes_on 16 c ≡ is_hex c) × ((not (is_hex c) || value_of c == hex_value c) ≡ true)
hex_facts c small =
    let row = every_below-at _ 256 hex_table c small in
    (same_bool-eq _ _ (ground (arith, row)), ground (arith, row))

hex-lt : (c : ℕ) → is_hex c ≡ true → c < 256
hex-lt c h = ground arith

value_of-hex : (c : ℕ) → is_hex c ≡ true → value_of c ≡ hex_value c
value_of-hex c h = (==_iff _ _).0 (ground (arith, h, (hex_facts c (hex-lt c h)).1))

goes_on-hex : (c : ℕ) → is_hex c ≡ true → goes_on 16 c ≡ true
goes_on-hex c h = (hex_facts c (hex-lt c h)).0 ∙ h

-- A string of hexadecimal digits, and the number that they stand for after `acc`.
abbrev pub all_hex : List ℕ → Bool
all_hex [] = true
all_hex (c ∷ cs) = is_hex c && all_hex cs

abbrev pub hex_number : ℕ → List ℕ → ℕ
hex_number acc [] = acc
hex_number acc (c ∷ cs) = hex_number (acc * 16 + hex_value c) cs

-- A rest at which the digits stop: the end, or a character that is none.
abbrev pub stops : List ℕ → Bool
stops [] = true
stops (c ∷ cs) = ltb c 256 && not (is_hex c)

strtoul_loop-stops :
    (r : ℕ) (rest : List ℕ) → stops rest ≡ true → strtoul_loop 16 r rest ≡ (r, rest)
unfolding strtoul_loop
strtoul_loop-stops r [] h = refl
strtoul_loop-stops r (c ∷ cs) h = rw stop refl
  where
    stop : goes_on 16 c ≡ false
    stop = (hex_facts c (ground (arith, h))).0 ∙ ground (arith, h)

strtoul_loop-hex :
    (cs rest : List ℕ) (r : ℕ)
    → all_hex cs ≡ true
    → stops rest ≡ true
    → strtoul_loop 16 (u64 r) (cs ++ rest) ≡ (u64 (hex_number r cs), rest)
unfolding strtoul_loop
strtoul_loop-hex [] rest r h stop = strtoul_loop-stops (u64 r) rest stop
strtoul_loop-hex (c ∷ cs) rest r h stop = rw (goes_on-hex c first) (
    ap (λ n. strtoul_loop 16 n (cs ++ rest)) carry
    ∙ strtoul_loop-hex cs rest (r * 16 + hex_value c) (ground (arith, h)) stop)
  where
    first : is_hex c ≡ true
    first = ground (arith, h)

    carry : u64 (u64 r * 16 + value_of c) ≡ u64 (r * 16 + hex_value c)
    carry = omega (arith, value_of-hex c first)

-- `simple_strtoul` with base 16 of "0x", hexadecimal digits, and a rest that is empty or starts
-- with no such digit is the number of the digits modulo 2 ^ 64, and stops at the rest.
pub simple_strtoul-prefix :
    (cs rest : List ℕ)
    → all_hex cs ≡ true
    → stops rest ≡ true
    → simple_strtoul (48 ∷ 120 ∷ (cs ++ rest)) 16 ≡ (u64 (hex_number 0 cs), rest)
unfolding simple_strtoul parse_integer_fixup_radix tolower isupper ismask ctype
simple_strtoul-prefix cs rest h stop = strtoul_loop-hex cs rest 0 h stop

no_x_table : every_below (λ c. not (is_hex c || c == 0) || not (tolower c == 120)) 256 ≡ true
unfolding every_below tolower isupper ismask ctype
no_x_table = refl

second-not_x : (cs : List ℕ) → all_hex cs ≡ true → (tolower (get_or cs 1 0) == 120) ≡ false
second-not_x [] h = ground (arith, every_below-at _ 256 no_x_table 0 (omega arith))
second-not_x (c ∷ []) h = ground (arith, every_below-at _ 256 no_x_table 0 (omega arith))
second-not_x (c ∷ d ∷ cs) h =
    ground (arith, h, every_below-at _ 256 no_x_table d (hex-lt d (ground (arith, h))))

-- `simple_strtoul` with base 16 of a string of hexadecimal digits alone is their number modulo 2
-- ^ 64, also where the number does not fit, and all of the string is used.
pub simple_strtoul-hex :
    (cs : List ℕ) → all_hex cs ≡ true → simple_strtoul cs 16 ≡ (u64 (hex_number 0 cs), [])
unfolding simple_strtoul parse_integer_fixup_radix
simple_strtoul-hex cs h =
    rw (second-not_x cs h, and_false (get_or cs 0 0 == 48))
      (ap (strtoul_loop 16 0) (sym (append-nil cs)) ∙ strtoul_loop-hex cs [] 0 h refl)
  where
    and_false : (b : Bool) → (b && false) ≡ false
    and_false true = refl
    and_false false = refl
