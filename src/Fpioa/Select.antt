-- ===== src/Fpioa/Select.antt =====
-- `fpioa_set_function` and `fpioa_get_io_by_function` of src/drivers/fpioa.c.
use k210_guard_bootloader.Prelude.{
  ℕ, zero, suc, ◌+◌, ◌≤◌, ◌<◌, ◌≡◌, ◌≢◌, refl, sym, ap, ◌∙◌, inl, inr, true, false, not, ◌&&◌,
  arith,
}
use k210_guard_bootloader.Prelude.Tests.{ltb, ◌==◌, ==_iff, if◌then◌else◌, Bool-cases}
use k210_guard_bootloader.Prelude.Lists.{length, get_or, length-set}
use k210_guard_bootloader.Prelude.Int.{pos}
use k210_guard_bootloader.Fpioa.Entry.{IoConfig}
use k210_guard_bootloader.Fpioa.Config.{function_config, no_assign, ch_sel-function_config}
use k210_guard_bootloader.Fpioa.{
  Fpioa, pin, set_pin, io_of, fpioa_set_function_raw, func_resv0, release_loop, fpioa_set_function,
}
use k210_guard_bootloader.Fpioa.Pins.{inside, pin-set_self, pin-set_ne}

-- What `fpioa_set_function_raw` writes for a function
abbrev pub configured : ℕ → IoConfig
configured function = io_of (get_or function_config function no_assign)

pub ch_sel-configured : (n : ℕ) → n < 256 → (configured n).ch_sel ≡ n
unfolding io_of
ch_sel-configured n h = ch_sel-function_config n h

raw-eq :
    (s : Fpioa) (n function : ℕ)
    → n < 48
    → function < 256
    → (fpioa_set_function_raw s (pos n) function).1 ≡ set_pin s n (configured function)
unfolding fpioa_set_function_raw
raw-eq s n function h known = rw (in_range, inside n h) refl
  where
    in_range : ltb function 256 ≡ true
    in_range = ground arith

module _ (number function : ℕ) where
  -- what the loop makes of a pin
  abbrev released : IoConfig → ℕ → IoConfig
  released cfg i =
      if cfg.ch_sel == function && not (i == number) then configured func_resv0 else cfg

  abbrev round : Fpioa → ℕ → Fpioa
  round s index =
      if (pin s index).ch_sel == function && not (index == number)
      then (fpioa_set_function_raw s (pos index) func_resv0).1
      else s

  length-round : (s : Fpioa) (index : ℕ) → index < 48 → length (round s index).io ≡ length s.io
  length-round s index h =
      elim (Bool-cases ((pin s index).ch_sel == function && not (index == number))) [
        | inl taken ↦ rw taken (
            ap (λ (t : Fpioa). length t.io) (raw-eq s index func_resv0 h (omega arith))
            ∙ length-set s.io index (configured func_resv0))
        | inr free ↦ rw free refl
      ]

  pin-round_self :
      (s : Fpioa) (index : ℕ)
      → length s.io ≡ 48
      → index < 48
      → pin (round s index) index ≡ released (pin s index) index
  pin-round_self s index size h =
      elim (Bool-cases ((pin s index).ch_sel == function && not (index == number))) [
        | inl taken ↦ rw taken (
            ap (λ (t : Fpioa). pin t index) (raw-eq s index func_resv0 h (omega arith))
            ∙ pin-set_self s index (configured func_resv0) size h)
        | inr free ↦ rw free refl
      ]

  pin-round_ne :
      (s : Fpioa) (index i : ℕ) → index < 48 → index ≢ i → pin (round s index) i ≡ pin s i
  pin-round_ne s index i h ne =
      elim (Bool-cases ((pin s index).ch_sel == function && not (index == number))) [
        | inl taken ↦ rw taken (
            ap (λ (t : Fpioa). pin t i) (raw-eq s index func_resv0 h (omega arith))
            ∙ pin-set_ne s index i (configured func_resv0) ne)
        | inr free ↦ rw free refl
      ]

  length-release_loop :
      (left : ℕ) (s : Fpioa) (index : ℕ)
      → index + left ≤ 48
      → length (release_loop left s index number function).io ≡ length s.io
  unfolding release_loop
  length-release_loop zero s index h = refl
  length-release_loop (suc left) s index h =
      length-release_loop left (round s index) (index + 1) (omega arith)
      ∙ length-round s index (omega arith)

  -- The loop leaves a pin that it is past.
  release_loop-past :
      (left : ℕ) (s : Fpioa) (index i : ℕ)
      → index + left ≤ 48
      → i < index
      → pin (release_loop left s index number function) i ≡ pin s i
  unfolding release_loop
  release_loop-past zero s index i h past = refl
  release_loop-past (suc left) s index i h past =
      release_loop-past left (round s index) (index + 1) i (omega arith) (omega arith)
      ∙ pin-round_ne s index i (omega arith) (λ e. absurd (omega (arith, e, past)))

  release_loop-pin :
      (left : ℕ) (s : Fpioa) (index i : ℕ)
      → length s.io ≡ 48
      → index + left ≤ 48
      → index ≤ i
      → i < index + left
      → pin (release_loop left s index number function) i ≡ released (pin s i) i
  unfolding release_loop
  release_loop-pin zero s index i size h low high = absurd (omega arith)
  release_loop-pin (suc left) s index i size h low high = elim (Bool-cases (index == i)) [
    | inl here ↦
        release_loop-past left (round s index) (index + 1) i (omega arith) (ground (arith, here))
        ∙ ap (λ (k : ℕ). pin (round s index) k) (sym ((==_iff index i).0 here))
        ∙ pin-round_self s index size (omega arith)
        ∙ ap (λ (k : ℕ). released (pin s k) k) ((==_iff index i).0 here)
    | inr later ↦
        release_loop-pin left (round s index) (index + 1) i
          (length-round s index (omega arith) ∙ size) (omega arith) (ground (arith, later, low))
          (omega arith)
        ∙ ap (λ cfg. released cfg i)
            (pin-round_ne s index i (omega arith) (λ e. absurd (ground (arith, later, e))))
  ]

module _ (s : Fpioa) (number function : ℕ) (size : length s.io ≡ 48) (h : number < 48)
    (known : function < 256) (real : function ≢ func_resv0) where
  abbrev after : Fpioa
  after = (fpioa_set_function s (pos number) function).1

  after-eq :
      (fpioa_set_function s (pos number) function).1
      ≡ set_pin (release_loop 48 s 0 number function) number (configured function)
  unfolding fpioa_set_function
  after-eq =
      rw (in_range, inside number h, other)
        (raw-eq (release_loop 48 s 0 number function) number function h known)
    where
      in_range : ltb function 256 ≡ true
      in_range = ground arith

      other : (function == func_resv0) ≡ false
      other = ground (arith, real)

  -- With 48 registers and a function other than FUNC_RESV0, `fpioa_set_function` gives the pin
  -- its function's configuration, and every other pin that had the function that of FUNC_RESV0;
  -- the rest stays.
  pub fpioa_set_function-pin :
      (i : ℕ)
      → i < 48
      → pin after i ≡ (
          if i == number
          then configured function
          else if (pin s i).ch_sel == function
          then configured func_resv0
          else pin s i)
  fpioa_set_function-pin i inside = elim (Bool-cases (i == number)) [
    | inl here ↦ rw here (
        ap (λ (k : ℕ). pin after k) ((==_iff i number).0 here)
        ∙ ap (λ (t : Fpioa). pin t number) after-eq
        ∙ pin-set_self (release_loop 48 s 0 number function) number (configured function)
            (length-release_loop number function 48 s 0 (omega arith) ∙ size) h)
    | inr other ↦
        ap (λ (t : Fpioa). pin t i) after-eq
        ∙ pin-set_ne (release_loop 48 s 0 number function) number i (configured function)
            (λ e. absurd (ground (arith, other, e)))
        ∙ release_loop-pin number function 48 s 0 i size (omega arith) (omega arith) (omega arith)
        ∙ ground (arith, other)
  ]
