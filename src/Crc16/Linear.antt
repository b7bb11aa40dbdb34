-- ===== src/Crc16/Linear.antt =====
-- Laws of `^`, for the shift register of src/cli/crc16.c.
use k210_guard_bootloader.Prelude.{
  ℕ, zero, suc, ◌+◌, ◌*◌, ◌/◌, ◌%◌, ◌<◌, bit_xor, ◌≡◌, refl, sym, ap, ap₂, ◌∙◌, arith,
}
use k210_guard_bootloader.Prelude.Bits.{xor_lowest, differ, from_half, zero-bit_xor, bit_xor_fields}

differ-lt : (x y : ℕ) → x < 2 → y < 2 → differ x y < 2
differ-lt zero y h k = k
differ-lt (suc zero) zero h k = omega arith
differ-lt (suc zero) (suc zero) h k = omega arith
differ-lt (suc zero) (suc (suc y)) h k = absurd (omega arith)
differ-lt (suc (suc x)) y h k = absurd (omega arith)

differ_comm : (x y : ℕ) → x < 2 → y < 2 → differ x y ≡ differ y x
differ_comm zero zero h k = refl
differ_comm zero (suc zero) h k = refl
differ_comm (suc zero) zero h k = refl
differ_comm (suc zero) (suc zero) h k = refl
differ_comm zero (suc (suc y)) h k = absurd (omega arith)
differ_comm (suc zero) (suc (suc y)) h k = absurd (omega arith)
differ_comm (suc (suc x)) y h k = absurd (omega arith)

differ_assoc : (x y z : ℕ) → x < 2 → y < 2 → z < 2 → differ (differ x y) z ≡ differ x (differ y z)
differ_assoc zero y z h k l = refl
differ_assoc (suc zero) zero z h k l = refl
differ_assoc (suc zero) (suc zero) zero h k l = refl
differ_assoc (suc zero) (suc zero) (suc zero) h k l = refl
differ_assoc (suc zero) (suc zero) (suc (suc z)) h k l = absurd (omega arith)
differ_assoc (suc zero) (suc (suc y)) z h k l = absurd (omega arith)
differ_assoc (suc (suc x)) y z h k l = absurd (omega arith)

pub bit_xor-odd : (a b : ℕ) → bit_xor a b % 2 ≡ differ (a % 2) (b % 2)
bit_xor-odd a b =
    omega (arith, xor_lowest a b, differ-lt (a % 2) (b % 2) (omega arith) (omega arith))

pub bit_xor-half : (a b : ℕ) → bit_xor a b / 2 ≡ bit_xor (a / 2) (b / 2)
bit_xor-half a b =
    omega (arith, xor_lowest a b, differ-lt (a % 2) (b % 2) (omega arith) (omega arith))

pub bit_xor-zero : (a : ℕ) → bit_xor a 0 ≡ a
bit_xor-zero =
    from_half (λ a. bit_xor a 0 ≡ a) refl
      λ a half.
        omega
          (arith, xor_lowest (suc a) 0, half, differ_comm (suc a % 2) 0 (omega arith) (omega arith))

pub bit_xor_comm : (a b : ℕ) → bit_xor a b ≡ bit_xor b a
bit_xor_comm =
    from_half (λ a. (b : ℕ) → bit_xor a b ≡ bit_xor b a)
      (λ b. omega (arith, zero-bit_xor b, bit_xor-zero b))
      λ a half b. omega (
        arith,
        xor_lowest (suc a) b,
        xor_lowest b (suc a),
        half (b / 2),
        differ_comm (suc a % 2) (b % 2) (omega arith) (omega arith),
      )

pub bit_xor_assoc : (a b c : ℕ) → bit_xor (bit_xor a b) c ≡ bit_xor a (bit_xor b c)
bit_xor_assoc =
    from_half (λ a. (b c : ℕ) → bit_xor (bit_xor a b) c ≡ bit_xor a (bit_xor b c))
      (λ b c. ap (λ x. bit_xor x c) (zero-bit_xor b) ∙ sym (zero-bit_xor (bit_xor b c))) step
  where
    step :
        (a : ℕ)
        → ((b c : ℕ) → bit_xor (bit_xor (suc a / 2) b) c ≡ bit_xor (suc a / 2) (bit_xor b c))
        → (b c : ℕ) → bit_xor (bit_xor (suc a) b) c ≡ bit_xor (suc a) (bit_xor b c)
    step a half b c =
        xor_lowest (bit_xor (suc a) b) c
        ∙ ap₂ (λ h l. h * 2 + l)
            (ap (λ h. bit_xor h (c / 2)) (bit_xor-half (suc a) b)
              ∙ half (b / 2) (c / 2)
              ∙ ap (bit_xor (suc a / 2)) (sym (bit_xor-half b c)))
            (ap (λ l. differ l (c % 2)) (bit_xor-odd (suc a) b)
              ∙ differ_assoc (suc a % 2) (b % 2) (c % 2) (omega arith) (omega arith) (omega arith)
              ∙ ap (differ (suc a % 2)) (sym (bit_xor-odd b c)))
        ∙ sym (xor_lowest (suc a) (bit_xor b c))

pub bit_xor_self : (a : ℕ) → bit_xor a a ≡ 0
bit_xor_self =
    from_half (λ a. bit_xor a a ≡ 0) refl
      λ a half. omega (arith, xor_lowest (suc a) (suc a), half, same (suc a % 2) (omega arith))
  where
    same : (x : ℕ) → x < 2 → differ x x ≡ 0
    same zero h = refl
    same (suc zero) h = refl
    same (suc (suc x)) h = absurd (omega arith)

-- a high and a low byte
pub bit_xor-bytes : (h l : ℕ) → l < 256 → bit_xor (h * 256) l ≡ h * 256 + l
bit_xor-bytes h l small =
    ap₂ bit_xor (omega arith) (omega arith)
    ∙ bit_xor_fields 8 h 0 0 l (omega arith) small
    ∙ omega (arith, bit_xor-zero h, zero-bit_xor l)

abbrev eighth : ℕ → ℕ
eighth x = x / 2 / 2 / 2 / 2 / 2 / 2 / 2 / 2

-- the high byte stays under a byte
pub bit_xor-high : (a b : ℕ) → b < 256 → bit_xor a b / 256 ≡ a / 256
bit_xor-high a b small = omega (
  arith,
  bit_xor-half a b,
  bit_xor-half (a / 2) (b / 2),
  bit_xor-half (a / 2 / 2) (b / 2 / 2),
  bit_xor-half (a / 2 / 2 / 2) (b / 2 / 2 / 2),
  bit_xor-half (a / 2 / 2 / 2 / 2) (b / 2 / 2 / 2 / 2),
  bit_xor-half (a / 2 / 2 / 2 / 2 / 2) (b / 2 / 2 / 2 / 2 / 2),
  bit_xor-half (a / 2 / 2 / 2 / 2 / 2 / 2) (b / 2 / 2 / 2 / 2 / 2 / 2),
  bit_xor-half (a / 2 / 2 / 2 / 2 / 2 / 2 / 2) (b / 2 / 2 / 2 / 2 / 2 / 2 / 2),
  ap (bit_xor (eighth a)) gone,
  bit_xor-zero (eighth a),
)
  where
    gone : eighth b ≡ 0
    gone = omega (arith, small)
