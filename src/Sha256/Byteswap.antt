-- ===== src/Sha256/Byteswap.antt =====
-- `__byteswap64` of src/drivers/sha256.c puts the length's highest byte first.
use k210_guard_bootloader.Prelude.{
  ℕ, ◌+◌, ◌*◌, ◌/◌, ◌%◌, ◌^◌, ◌<◌, bit_and, bit_or, ◌≡◌, ap, ap₂, ◌∙◌, List, [], ◌∷◌, ◌++◌, arith,
}
use k210_guard_bootloader.Prelude.Bits.{
  bit_and_fields, bit_or_fields, bit_or-zero, zero-bit_or, bit_and-zero, bit_and_mask,
  bit_or_disjoint, disjoint_bit_or,
}
use k210_guard_bootloader.Prelude.Words.{u32, bytes_of32}
use k210_guard_bootloader.Sha256.{rotr, rotl, byteswap, byteswap64, bytes_of64}

abbrev word_be : ℕ → ℕ → ℕ → ℕ → ℕ
word_be b3 b2 b1 b0 = b3 * 2 ^ 24 + b2 * 2 ^ 16 + b1 * 2 ^ 8 + b0

and_even :
    (b3 b2 b1 b0 : ℕ)
    → b3 < 256
    → b2 < 256
    → b1 < 256
    → b0 < 256
    → bit_and (word_be b3 b2 b1 b0) 0xff00ff00 ≡ word_be b3 0 b1 0
and_even b3 b2 b1 b0 h3 h2 h1 h0 = ground (
  arith,
  bit_and_fields 24 b3 (word_be 0 b2 b1 b0) 0xff 0x00ff00 (omega arith) (omega arith),
  bit_and_fields 16 b2 (word_be 0 0 b1 b0) 0 0xff00 (omega arith) (omega arith),
  bit_and_fields 8 b1 b0 0xff 0 (omega arith) (omega arith),
  bit_and_mask 8 b3,
  bit_and_mask 8 b1,
  bit_and-zero b2,
  bit_and-zero b0,
)

module _ (b3 b2 b1 b0 : ℕ) (h3 : b3 < 256) (h2 : b2 < 256) (h1 : b1 < 256) (h0 : b0 < 256) where
  and_odd : bit_and (word_be b3 b2 b1 b0) 0x00ff00ff ≡ word_be 0 b2 0 b0
  and_odd = ground (
    arith,
    bit_and_fields 24 b3 (word_be 0 b2 b1 b0) 0 0xff00ff (omega arith) (omega arith),
    bit_and_fields 16 b2 (word_be 0 0 b1 b0) 0xff 0xff (omega arith) (omega arith),
    bit_and_fields 8 b1 b0 0 0xff (omega arith) (omega arith),
    bit_and_mask 8 b2,
    bit_and_mask 8 b0,
    bit_and-zero b3,
    bit_and-zero b1,
  )

  or_even_odd : bit_or (word_be b3 0 b1 0) (word_be 0 b2 0 b0) ≡ word_be b3 b2 b1 b0
  or_even_odd = ground (
    arith,
    bit_or_fields 24 b3 (word_be 0 0 b1 0) 0 (word_be 0 b2 0 b0) (omega arith) (omega arith),
    bit_or_fields 16 0 (word_be 0 0 b1 0) b2 b0 (omega arith) (omega arith),
    bit_or_disjoint 8 b1 b0 (omega arith),
    bit_or-zero b3,
    zero-bit_or b2,
  )

  rotr-word : rotr (word_be b3 b2 b1 b0) 8 ≡ word_be b0 b3 b2 b1
  unfolding rotr
  rotr-word = ground (arith, disjoint_bit_or 24 b0 (word_be 0 b3 b2 b1) (omega arith))

  rotl-word : rotl (word_be b3 b2 b1 b0) 8 ≡ word_be b2 b1 b0 b3
  unfolding rotl
  rotl-word = ground (arith, bit_or_disjoint 8 (word_be 0 b2 b1 b0) b3 (omega arith))

-- `_BYTESWAP` turns the four bytes of a word round.
byteswap-word :
    (b3 b2 b1 b0 : ℕ)
    → b3 < 256
    → b2 < 256
    → b1 < 256
    → b0 < 256
    → byteswap (word_be b3 b2 b1 b0) ≡ word_be b0 b1 b2 b3
unfolding byteswap
byteswap-word b3 b2 b1 b0 h3 h2 h1 h0 =
    ap₂ (λ (x y : ℕ). bit_or (bit_and x 0xff00ff00) (bit_and y 0x00ff00ff))
      (rotr-word b3 b2 b1 b0 h3 h2 h1 h0) (rotl-word b3 b2 b1 b0 h3 h2 h1 h0)
    ∙ ap₂ bit_or (and_even b0 b3 b2 b1 h0 h3 h2 h1) (and_odd b2 b1 b0 b3 h2 h1 h0 h3)
    ∙ or_even_odd b0 b1 b2 b3 h0 h1 h2 h3

-- The same of any `uint32_t`, by its four bytes.
byteswap_lem :
    (x : ℕ)
    → x < 2 ^ 32
    → byteswap x ≡ word_be (x % 256) (x / 2 ^ 8 % 256) (x / 2 ^ 16 % 256) (x / 2 ^ 24)
byteswap_lem x h =
    ap byteswap split
    ∙ byteswap-word (x / 2 ^ 24) (x / 2 ^ 16 % 256) (x / 2 ^ 8 % 256) (x % 256) (omega arith)
        (omega arith) (omega arith) (omega arith)
  where
    split : x ≡ word_be (x / 2 ^ 24) (x / 2 ^ 16 % 256) (x / 2 ^ 8 % 256) (x % 256)
    split = omega arith

-- The eight bytes of a number below 2^64, highest first.
abbrev pub bytes_be64 : ℕ → List ℕ
bytes_be64 x =
    x / 2 ^ 56 % 256
    ∷ x / 2 ^ 48 % 256
    ∷ x / 2 ^ 40 % 256
    ∷ x / 2 ^ 32 % 256
    ∷ x / 2 ^ 24 % 256
    ∷ x / 2 ^ 16 % 256
    ∷ x / 2 ^ 8 % 256
    ∷ x % 256
    ∷ []

byteswap-lt : (x : ℕ) → x < 2 ^ 32 → byteswap x < 2 ^ 32
byteswap-lt x h = omega (arith, byteswap_lem x h)

bytes_of32-byteswap :
    (x : ℕ)
    → x < 2 ^ 32
    → bytes_of32 (byteswap x) ≡ x / 2 ^ 24 % 256 ∷ x / 2 ^ 16 % 256 ∷ x / 2 ^ 8 % 256 ∷ x % 256 ∷ []
unfolding bytes_of32
bytes_of32-byteswap x h =
    cons (omega (arith, byteswap_lem x h)) (omega (arith, byteswap_lem x h))
      (omega (arith, byteswap_lem x h)) (omega (arith, byteswap_lem x h))
  where
    cons :
        {a b c d a' b' c' d' : ℕ}
        → a ≡ a'
        → b ≡ b'
        → c ≡ c'
        → d ≡ d'
        → ◌≡◌ {A = List ℕ} (a ∷ b ∷ c ∷ d ∷ []) (a' ∷ b' ∷ c' ∷ d' ∷ [])
    cons p q r s = λ i. p i ∷ q i ∷ r i ∷ s i ∷ []

-- In memory `__byteswap64` of a number below 2 ^ 64 is the number's eight bytes, the highest
-- first.
pub bytes_of64-byteswap64 : (x : ℕ) → x < 2 ^ 64 → bytes_of64 (byteswap64 x) ≡ bytes_be64 x
unfolding byteswap64 bytes_of64
bytes_of64-byteswap64 x h =
    ap₂ (λ (l r : ℕ). bytes_of32 l ++ bytes_of32 r) low high
    ∙ ap₂ ◌++◌ (bytes_of32-byteswap (u32 (x / 2 ^ 32)) (omega arith))
        (bytes_of32-byteswap (u32 x) (omega arith))
    ∙ λ i.
        parts.0 i
        ∷ parts.1 i
        ∷ parts.2 i
        ∷ parts.3 i
        ∷ parts.4 i
        ∷ parts.5 i
        ∷ parts.6 i
        ∷ parts.7 i
        ∷ []
  where
    a : ℕ
    a = byteswap (u32 (x / 2 ^ 32))

    b : ℕ
    b = byteswap (u32 x)

    low : u32 (bit_or (b * 2 ^ 32) a) ≡ a
    low = omega (
      arith,
      bit_or_disjoint 32 b a (byteswap-lt (u32 (x / 2 ^ 32)) (omega arith)),
      byteswap-lt (u32 (x / 2 ^ 32)) (omega arith),
    )

    high : bit_or (b * 2 ^ 32) a / 2 ^ 32 ≡ b
    high = omega (
      arith,
      bit_or_disjoint 32 b a (byteswap-lt (u32 (x / 2 ^ 32)) (omega arith)),
      byteswap-lt (u32 (x / 2 ^ 32)) (omega arith),
    )

    parts :
        (u32 (x / 2 ^ 32) / 2 ^ 24 % 256 ≡ x / 2 ^ 56 % 256)
        × (u32 (x / 2 ^ 32) / 2 ^ 16 % 256 ≡ x / 2 ^ 48 % 256)
        × (u32 (x / 2 ^ 32) / 2 ^ 8 % 256 ≡ x / 2 ^ 40 % 256)
        × (u32 (x / 2 ^ 32) % 256 ≡ x / 2 ^ 32 % 256)
        × (u32 x / 2 ^ 24 % 256 ≡ x / 2 ^ 24 % 256)
        × (u32 x / 2 ^ 16 % 256 ≡ x / 2 ^ 16 % 256)
        × (u32 x / 2 ^ 8 % 256 ≡ x / 2 ^ 8 % 256)
        × (u32 x % 256 ≡ x % 256)
    parts = omega arith
