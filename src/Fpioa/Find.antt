-- ===== src/Fpioa/Find.antt =====
-- `fpioa_get_io_by_function` of src/drivers/fpioa.c after `fpioa_set_function`.
use k210_guard_bootloader.Prelude.{
  ℕ, zero, suc, ◌+◌, ◌≤◌, ◌<◌, ◌≡◌, ◌≢◌, refl, ap, ◌∙◌, inl, inr, true, false, arith,
}
use k210_guard_bootloader.Prelude.Tests.{ltb, ◌==◌, ==_iff, Bool-cases}
use k210_guard_bootloader.Prelude.Lists.{length}
use k210_guard_bootloader.Prelude.Int.{pos}
use k210_guard_bootloader.Fpioa.{
  Fpioa, pin, func_resv0, fpioa_set_function, find_loop, fpioa_get_io_by_function,
}
use k210_guard_bootloader.Fpioa.Select.{ch_sel-configured, fpioa_set_function-pin}

-- The loop returns the first pin that has the function.
find_loop-first :
    (left : ℕ) (s : Fpioa) (index function n : ℕ)
    → index ≤ n
    → n < index + left
    → (pin s n).ch_sel ≡ function
    → ((j : ℕ) → j < n → (pin s j).ch_sel ≢ function)
    → find_loop left s index function ≡ pos n
unfolding find_loop
find_loop-first zero s index function n low high found first = absurd (omega arith)
find_loop-first (suc left) s index function n low high found first =
    elim (Bool-cases ((pin s index).ch_sel == function)) [
      | inl here ↦ rw here (ap pos (at_n here))
      | inr other ↦
          rw other
            (find_loop-first left s (index + 1) function n (past other) (omega arith) found first)
    ]
  where
    at_n : ((pin s index).ch_sel == function) ≡ true → index ≡ n
    at_n here = elim (Bool-cases (ltb index n)) [
      | inl before ↦ absurd (first index (ground (arith, before)) ((==_iff _ _).0 here))
      | inr not_before ↦ ground (arith, not_before, low)
    ]

    past : ((pin s index).ch_sel == function) ≡ false → index + 1 ≤ n
    past other = elim (Bool-cases (index == n)) [
      | inl same ↦
          absurd (
            ground
              (arith, other, ap (λ (k : ℕ). (pin s k).ch_sel) ((==_iff index n).0 same), found))
      | inr differ ↦ ground (arith, differ, low)
    ]

module _ (s : Fpioa) (number function : ℕ) (size : length s.io ≡ 48) (h : number < 48)
    (known : function < 256) (real : function ≢ func_resv0) where
  ch_sel-set :
      (i : ℕ)
      → i < 48
      → ((pin (fpioa_set_function s (pos number) function).1 i).ch_sel == function) ≡ (i == number)
  ch_sel-set i inside =
      ap (λ cfg. cfg.ch_sel == function)
        (fpioa_set_function-pin s number function size h known real i inside)
      ∙ elim (Bool-cases (i == number)) [
        | inl here ↦ rw here ((==_iff _ _).1 (ch_sel-configured function known))
        | inr other ↦ elim (Bool-cases ((pin s i).ch_sel == function)) [
          | inl had ↦
              rw (other, had) (ground (arith, real, ch_sel-configured func_resv0 (omega arith)))
          | inr free ↦ rw (other, free) free
        ]
      ]

  -- With 48 registers, a function other than FUNC_RESV0 that `fpioa_set_function` gives to a
  -- pin is found at that pin, and of the 48 pins it alone has the function.
  pub fpioa_get_io_by_function-set :
      (i : ℕ)
      → i < 48
      → let t = (fpioa_set_function s (pos number) function).1 in
        (fpioa_get_io_by_function t function ≡ pos number)
        × (((pin t i).ch_sel == function) ≡ (i == number))
  unfolding fpioa_get_io_by_function
  fpioa_get_io_by_function-set i inside = (
    find_loop-first 48 t 0 function number (omega arith) (omega arith)
        ((==_iff _ _).0 (ch_sel-set number h ∙ (==_iff number number).1 refl))
        (λ j before e.
          absurd (ground (arith, before, h, ch_sel-set j (omega (arith, before, h)), e))),
    ch_sel-set i inside,
  )
    where
      t : Fpioa
      t = (fpioa_set_function s (pos number) function).1
