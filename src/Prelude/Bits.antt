-- ===== src/Prelude/Bits.antt =====
-- Laws of `&`, `|` and `^` at variables, from the digit recursion that the native operations
-- stand for.
use Prim.Native.Nat.{digits, max, bit_and-bitwise, bit_or-bitwise, bit_xor-bitwise}
use Prim.Native.Nat.{
  ℕ, zero, suc, ◌+◌, ◌-◌, ◌*◌, ◌/◌, ◌%◌, ◌≤◌, ◌<◌, ◌^◌, min, bit_and, bit_or, bit_xor,
}
use mathlib.Core.Path.{◌≡◌, refl, sym, ap}
use mathlib.Core.Logic.{inl, inr}
use mathlib.Core.Bool.{Bool, true, false}
use k210_guard_bootloader.Prelude.Tests.{◌==◌, ==_iff, if◌then◌else◌, Bool-cases}
use native.Mathlib.Omega.{arith}
use native.Mathlib.Nat.{pow-suc, one-le-pow}

-- A test that every number below `n` passes, and what that says of one of them.
unfoldable pub every_below : (ℕ → Bool) → ℕ → Bool
every_below test zero = true
every_below test (suc n) = if test n then every_below test n else false

pub every_below-at :
    (test : ℕ → Bool) (n : ℕ) → every_below test n ≡ true → (x : ℕ) → x < n → test x ≡ true
unfolding every_below
every_below-at test zero passed x small = absurd (omega arith)
every_below-at test (suc n) passed x small = elim (Bool-cases (x == n)) [
  | inl last ↦ ground (arith, passed, ap test ((==_iff x n).0 last))
  | inr other ↦ every_below-at test n (ground (arith, passed)) x (ground (arith, small, other))
]

-- Induction from the half of a number to the number.
module _ {ℓ} (P : ℕ → Type ℓ) (base : P 0) (double : (a : ℕ) → P (suc a / 2) → P (suc a)) where
  pub up_to : (bound a : ℕ) → a ≤ bound → P a
  up_to bound zero h = base
  up_to zero (suc a) h = absurd (omega arith)
  up_to (suc bound) (suc a) h = double a (up_to bound (suc a / 2) (omega arith))

  pub from_half : (a : ℕ) → P a
  from_half a = up_to a a (omega arith)

-- An operation that means a recursion on binary digits: what it does to the lowest digit.
module _ (op : ℕ → ℕ → ℕ) (ended : ℕ → ℕ) (digit : ℕ → ℕ → ℕ)
    (meaning : (a b : ℕ) → op a b ≡ digits ended digit a a b)
    (at_end : (b : ℕ) → ended b ≡ ended (b / 2) * 2 + digit 0 (b % 2)) where
  -- More rounds than the first number has digits change nothing.
  surplus : (a : ℕ) → (rounds b : ℕ) → a ≤ rounds → digits ended digit rounds a b ≡ op a b
  surplus =
      from_half (λ a. (rounds b : ℕ) → a ≤ rounds → digits ended digit rounds a b ≡ op a b)
        none_left one_more
    where
      none_left : (rounds b : ℕ) → 0 ≤ rounds → digits ended digit rounds 0 b ≡ op 0 b
      none_left zero b h = sym (meaning 0 b)
      none_left (suc rounds) b h = sym (meaning 0 b)

      one_more :
          (a : ℕ)
          → ((rounds b : ℕ)
              → suc a / 2 ≤ rounds
              → digits ended digit rounds (suc a / 2) b ≡ op (suc a / 2) b)
          → (rounds b : ℕ) → suc a ≤ rounds
          → digits ended digit rounds (suc a) b ≡ op (suc a) b
      one_more a half zero b h = absurd (omega arith)
      one_more a half (suc rounds) b h = omega (
        arith,
        half rounds (b / 2) (omega arith),
        half a (b / 2) (omega arith),
        meaning (suc a) b,
      )

  lowest : (a b : ℕ) → op a b ≡ op (a / 2) (b / 2) * 2 + digit (a % 2) (b % 2)
  lowest zero b = omega (arith, meaning 0 b, meaning 0 (b / 2), at_end b)
  lowest (suc a) b = omega (arith, meaning (suc a) b, surplus (suc a / 2) a (b / 2) (omega arith))

abbrev pub differ : ℕ → ℕ → ℕ
differ = Prim.Native.Nat.differ

and_lowest : (a b : ℕ) → bit_and a b ≡ bit_and (a / 2) (b / 2) * 2 + min (a % 2) (b % 2)
and_lowest = lowest bit_and (λ y. 0) min bit_and-bitwise (λ b. omega arith)

or_lowest : (a b : ℕ) → bit_or a b ≡ bit_or (a / 2) (b / 2) * 2 + max (a % 2) (b % 2)
or_lowest = lowest bit_or (λ y. y) max bit_or-bitwise (λ b. omega arith)

pub xor_lowest : (a b : ℕ) → bit_xor a b ≡ bit_xor (a / 2) (b / 2) * 2 + differ (a % 2) (b % 2)
xor_lowest = lowest bit_xor (λ y. y) differ bit_xor-bitwise (λ b. omega arith)

-- An operation on digits goes through a split into a high and a low field.
module _ (op : ℕ → ℕ → ℕ) (f : ℕ → ℕ → ℕ) (at_zero : op 0 0 ≡ 0)
    (step : (a b : ℕ) → op a b ≡ op (a / 2) (b / 2) * 2 + f (a % 2) (b % 2)) where
  fields :
      (k q r s t : ℕ)
      → r < 2 ^ k
      → t < 2 ^ k
      → op (q * 2 ^ k + r) (s * 2 ^ k + t) ≡ op q s * 2 ^ k + op r t
  fields zero q r s t hr ht = ground (arith, at_zero)
  fields (suc k) q r s t hr ht = ground (
    arith,
    step (q * 2 ^ suc k + r) (s * 2 ^ suc k + t),
    step r t,
    pow-suc 2 k,
    ap (λ (t : ℕ). q * t) (pow-suc 2 k),
    ap (λ (t : ℕ). s * t) (pow-suc 2 k),
    ap (λ (t : ℕ). op q s * t) (pow-suc 2 k),
    fields k q (r / 2) s (t / 2) (omega (arith, pow-suc 2 k)) (omega (arith, pow-suc 2 k)),
  )

pub bit_and_fields :
    (k q r s t : ℕ)
    → r < 2 ^ k
    → t < 2 ^ k
    → bit_and (q * 2 ^ k + r) (s * 2 ^ k + t) ≡ bit_and q s * 2 ^ k + bit_and r t
bit_and_fields = fields bit_and min refl and_lowest

pub bit_or_fields :
    (k q r s t : ℕ)
    → r < 2 ^ k
    → t < 2 ^ k
    → bit_or (q * 2 ^ k + r) (s * 2 ^ k + t) ≡ bit_or q s * 2 ^ k + bit_or r t
bit_or_fields = fields bit_or max refl or_lowest

pub bit_xor_fields :
    (k q r s t : ℕ)
    → r < 2 ^ k
    → t < 2 ^ k
    → bit_xor (q * 2 ^ k + r) (s * 2 ^ k + t) ≡ bit_xor q s * 2 ^ k + bit_xor r t
bit_xor_fields = fields bit_xor differ refl xor_lowest

pub zero-bit_and : (b : ℕ) → bit_and 0 b ≡ 0
zero-bit_and b = bit_and-bitwise 0 b

pub zero-bit_or : (b : ℕ) → bit_or 0 b ≡ b
zero-bit_or b = bit_or-bitwise 0 b

pub zero-bit_xor : (b : ℕ) → bit_xor 0 b ≡ b
zero-bit_xor b = bit_xor-bitwise 0 b

pub bit_and-zero : (a : ℕ) → bit_and a 0 ≡ 0
bit_and-zero =
    from_half (λ a. bit_and a 0 ≡ 0) refl λ a half. omega (arith, and_lowest (suc a) 0, half)

pub bit_or-zero : (a : ℕ) → bit_or a 0 ≡ a
bit_or-zero =
    from_half (λ a. bit_or a 0 ≡ a) refl λ a half. omega (arith, or_lowest (suc a) 0, half)

-- `|` of a high field and a low one is their sum.
pub bit_or_disjoint : (k q r : ℕ) → r < 2 ^ k → bit_or (q * 2 ^ k) r ≡ q * 2 ^ k + r
bit_or_disjoint k q r h =
    ground (arith, bit_or_fields k q 0 0 r (omega arith) h, bit_or-zero q, zero-bit_or r)

bit_and_ones : (k r : ℕ) → r < 2 ^ k → bit_and r (2 ^ k - 1) ≡ r
bit_and_ones zero r h = ground (arith, bit_and-zero r)
bit_and_ones (suc k) r h = ground (
  arith,
  and_lowest r (2 ^ suc k - 1),
  pow-suc 2 k,
  bit_and_ones k (r / 2) (omega (arith, pow-suc 2 k)),
)

-- `&` with `k` ones is the remainder by `2 ^ k`.
pub bit_and_mask : (k a : ℕ) → bit_and a (2 ^ k - 1) ≡ a % 2 ^ k
bit_and_mask k a = ground (
  arith,
  one-le-pow k 2,
  bit_and_fields k (a / 2 ^ k) (a % 2 ^ k) 0 (2 ^ k - 1),
  bit_and-zero (a / 2 ^ k),
  bit_and_ones k (a % 2 ^ k),
)

pub disjoint_bit_or : (k q r : ℕ) → r < 2 ^ k → bit_or r (q * 2 ^ k) ≡ q * 2 ^ k + r
disjoint_bit_or k q r h =
    ground (arith, bit_or_fields k 0 r q 0 h (omega arith), bit_or-zero r, zero-bit_or q)

pub bit_and-le : (a b : ℕ) → bit_and a b ≤ a
bit_and-le =
    from_half (λ a. (b : ℕ) → bit_and a b ≤ a) (λ b. omega (arith, zero-bit_and b))
      λ a half b. omega (arith, and_lowest (suc a) b, half (b / 2))
