-- ===== src/Crc16/Bitwise.antt =====
-- The checksum of src/cli/crc16.c by its table is that of a shift register, bit by bit.
use k210_guard_bootloader.Prelude.{
  ℕ, zero, suc, ◌+◌, ◌*◌, ◌/◌, ◌%◌, ◌^◌, ◌<◌, bit_and, bit_xor, ◌≡◌, refl, sym, ap, ap₂, ◌∙◌, ◌⊎◌,
  inl, inr, true, false, List, [], ◌∷◌, arith,
}
use k210_guard_bootloader.Prelude.Tests.{◌==◌, ==_iff, if◌then◌else◌}
use k210_guard_bootloader.Prelude.Lists.{get_or}
use k210_guard_bootloader.Prelude.Bits.{every_below, every_below-at, bit_and_mask, differ}
use k210_guard_bootloader.Crc16.{
  Crc, crc_poly_16, entry_loop, table_loop, init_crc16_tab, crc_loop, crc_16,
}
use k210_guard_bootloader.Crc16.Linear.{
  bit_xor-half, bit_xor-odd, bit_xor-zero, bit_xor_comm, bit_xor_assoc, bit_xor_self, bit_xor-bytes,
  bit_xor-high,
}

-- One shift of the register
unfoldable pub shifted : ℕ → ℕ
shifted x = if x % 2 == 0 then x / 2 else bit_xor (x / 2) crc_poly_16

unfoldable pub shifts : ℕ → ℕ → ℕ
shifts zero x = x
shifts (suc n) x = shifts n (shifted x)

-- The register takes a byte: eight shifts.
unfoldable pub crc_bitwise : ℕ → List ℕ → ℕ
crc_bitwise crc [] = crc
crc_bitwise crc (b ∷ bs) = crc_bitwise (shifts 8 (bit_xor crc b)) bs

shifted-even : (x : ℕ) → x % 2 ≡ 0 → shifted x ≡ x / 2
unfolding shifted
shifted-even x h = rw h refl

shifted-odd : (x : ℕ) → x % 2 ≡ 1 → shifted x ≡ bit_xor (x / 2) crc_poly_16
unfolding shifted
shifted-odd x h = rw h refl

parity : (x : ℕ) → (x % 2 ≡ 0) ⊎ (x % 2 ≡ 1)
parity x = ground arith

module _ (a b : ℕ) where
  half : bit_xor a b / 2 ≡ bit_xor (a / 2) (b / 2)
  half = bit_xor-half a b

  odd-eq : (x y : ℕ) → a % 2 ≡ x → b % 2 ≡ y → bit_xor a b % 2 ≡ differ x y
  odd-eq x y p q = bit_xor-odd a b ∙ ap₂ differ p q

  -- A shift of a sum without carries is the sum of the shifts.
  shifted-bit_xor : shifted (bit_xor a b) ≡ bit_xor (shifted a) (shifted b)
  shifted-bit_xor = elim (parity a) [
    | inl even ↦ elim (parity b) [
      | inl even' ↦
          shifted-even _ (odd-eq 0 0 even even')
          ∙ half
          ∙ ap₂ bit_xor (sym (shifted-even a even)) (sym (shifted-even b even'))
      | inr odd' ↦
          shifted-odd _ (odd-eq 0 1 even odd')
          ∙ ap (λ x. bit_xor x crc_poly_16) half
          ∙ bit_xor_assoc (a / 2) (b / 2) crc_poly_16
          ∙ ap₂ bit_xor (sym (shifted-even a even)) (sym (shifted-odd b odd'))
    ]
    | inr odd ↦ elim (parity b) [
      | inl even' ↦
          shifted-odd _ (odd-eq 1 0 odd even')
          ∙ ap (λ x. bit_xor x crc_poly_16) half
          ∙ swap_last (a / 2) (b / 2) crc_poly_16
          ∙ ap₂ bit_xor (sym (shifted-odd a odd)) (sym (shifted-even b even'))
      | inr odd' ↦
          shifted-even _ (odd-eq 1 1 odd odd')
          ∙ half
          ∙ sym (cancel (a / 2) (b / 2) crc_poly_16)
          ∙ ap₂ bit_xor (sym (shifted-odd a odd)) (sym (shifted-odd b odd'))
    ]
  ]
    where
      swap_last : (x y z : ℕ) → bit_xor (bit_xor x y) z ≡ bit_xor (bit_xor x z) y
      swap_last x y z =
          bit_xor_assoc x y z ∙ ap (bit_xor x) (bit_xor_comm y z) ∙ sym (bit_xor_assoc x z y)

      cancel : (x y z : ℕ) → bit_xor (bit_xor x z) (bit_xor y z) ≡ bit_xor x y
      cancel x y z =
          bit_xor_assoc x z (bit_xor y z)
          ∙ ap (bit_xor x) (
              ap (bit_xor z) (bit_xor_comm y z)
              ∙ sym (bit_xor_assoc z z y)
              ∙ ap (λ w. bit_xor w y) (bit_xor_self z)
              ∙ bit_xor_comm 0 y
              ∙ bit_xor-zero y)

shifts-bit_xor : (n a b : ℕ) → shifts n (bit_xor a b) ≡ bit_xor (shifts n a) (shifts n b)
unfolding shifts
shifts-bit_xor zero a b = refl
shifts-bit_xor (suc n) a b =
    ap (shifts n) (shifted-bit_xor a b) ∙ shifts-bit_xor n (shifted a) (shifted b)

-- Eight shifts of a multiple of 256 are a division.
shifts-high : (h : ℕ) → shifts 8 (h * 256) ≡ h
unfolding shifts
shifts-high h =
    ap (shifts 7) (by_half (h * 256) (h * 128) (omega arith))
    ∙ ap (shifts 6) (by_half (h * 128) (h * 64) (omega arith))
    ∙ ap (shifts 5) (by_half (h * 64) (h * 32) (omega arith))
    ∙ ap (shifts 4) (by_half (h * 32) (h * 16) (omega arith))
    ∙ ap (shifts 3) (by_half (h * 16) (h * 8) (omega arith))
    ∙ ap (shifts 2) (by_half (h * 8) (h * 4) (omega arith))
    ∙ ap (shifts 1) (by_half (h * 4) (h * 2) (omega arith))
    ∙ by_half (h * 2) h (omega arith)
  where
    by_half : (x y : ℕ) → x ≡ 2 * y → shifted x ≡ y
    by_half x y e = shifted-even x (omega (arith, e)) ∙ omega (arith, e)

table : every_below (λ n. get_or (table_loop 256 0) n 0 == shifts 8 n) 256 ≡ true
unfolding every_below table_loop entry_loop shifts shifted
table = refl

-- A byte by the table
crc_byte :
    (crc b : ℕ)
    → b < 256
    → bit_xor (crc / 2 ^ 8) (get_or (table_loop 256 0) (bit_and (bit_xor crc b) 0xff) 0)
      ≡ shifts 8 (bit_xor crc b)
crc_byte crc b small =
    ap₂ bit_xor (sym (shifts-high (crc / 256))) (
      ap (λ n. get_or (table_loop 256 0) n 0) (bit_and_mask 8 x)
      ∙ (==_iff _ _).0 (every_below-at _ 256 table (x % 256) (omega arith)))
    ∙ sym (shifts-bit_xor 8 (crc / 256 * 256) (x % 256))
    ∙ ap (shifts 8) (bit_xor-bytes (crc / 256) (x % 256) (omega arith) ∙ whole)
  where
    x : ℕ
    x = bit_xor crc b

    whole : crc / 256 * 256 + x % 256 ≡ x
    whole = omega (arith, bit_xor-high crc b small)

abbrev pub AllBytes : List ℕ → Type 0
AllBytes [] = Unit
AllBytes (b ∷ bs) = (b < 256) × AllBytes bs

crc_loop-bitwise :
    (bs : List ℕ) (crc : ℕ) → AllBytes bs → crc_loop (table_loop 256 0) crc bs ≡ crc_bitwise crc bs
unfolding crc_loop crc_bitwise
crc_loop-bitwise [] crc h = refl
crc_loop-bitwise (b ∷ bs) crc (small, rest) =
    ap (λ c. crc_loop (table_loop 256 0) c bs) (crc_byte crc b small)
    ∙ crc_loop-bitwise bs (shifts 8 (bit_xor crc b)) rest

-- The module's variables: the table is not made yet, or is as it was made.
abbrev pub IsSound : Crc → Type 0
IsSound s = (s.crc_tab16_init ≡ false) ⊎ (s ≡ init_crc16_tab)

table_made :
    (s : Crc) → IsSound s → (if s.crc_tab16_init then s else init_crc16_tab) ≡ init_crc16_tab
unfolding init_crc16_tab
table_made s (inl not_yet) = rw not_yet refl
table_made s (inr made) = rw made refl

-- Whether its table was made before or not, `crc_16` of a string of bytes is the checksum of the
-- shift register with the polynomial 0xA001 that starts at 0, and it leaves the table made.
pub crc_16-bitwise :
    (s : Crc) (input : List ℕ)
    → IsSound s
    → AllBytes input
    → crc_16 s input ≡ (crc_bitwise 0 input, init_crc16_tab)
unfolding crc_16 init_crc16_tab
crc_16-bitwise s input sound bytes =
    ap (λ (t : Crc). (crc_loop t.crc_tab16 0 input, t)) (table_made s sound)
    ∙ ap (λ c. (c, init_crc16_tab)) (crc_loop-bitwise input 0 bytes)
