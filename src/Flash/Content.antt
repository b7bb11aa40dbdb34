-- ===== src/Flash/Content.antt =====
-- What programming and erasing make of a chip's content, as memories.
use k210_guard_bootloader.Prelude.{
  ℕ, ◌+◌, ◌-◌, ◌<◌, bit_and, ◌≡◌, refl, sym, ap, ◌∙◌, fun_ext, inl, inr, true, false, List, [],
  ◌++◌, arith,
}
use k210_guard_bootloader.Prelude.Tests.{◌==◌, ==_iff, Bool-cases}
use k210_guard_bootloader.Prelude.Lists.{
  length, get_or, length-append, get_or-append, get_or-append_left,
}
use k210_guard_bootloader.Prelude.Bits.{every_below, every_below-at}
use k210_guard_bootloader.Prelude.Memory.{Memory, span, store, within, length-span, span-add}
use k210_guard_bootloader.Flash.Ops.{programmed}

module _ (m : Memory) (a : ℕ) where
  -- Two runs of bytes, one behind the other, are programmed as one.
  pub programmed-append :
      (xs ys : List ℕ)
      → programmed (programmed m a xs) (a + length xs) ys ≡ programmed m a (xs ++ ys)
  unfolding programmed
  programmed-append xs ys = fun_ext λ x. elim (Bool-cases (within a (length xs) x)) [
    | inl in_xs ↦ ground (arith, length-append xs ys, get_or-append_left xs ys (x - a) 0)
    | inr out ↦ ground (arith, length-append xs ys, get_or-append xs ys (x - (a + length xs)) 0)
  ]

  pub programmed-nil : programmed m a [] ≡ m
  unfolding programmed
  programmed-nil = fun_ext λ x. ground arith

  pub programmed-outside :
      (xs : List ℕ) (x : ℕ) → within a (length xs) x ≡ false → programmed m a xs x ≡ m x
  unfolding programmed
  programmed-outside xs x h = rw h

table_ones : every_below (λ b. bit_and 0xff b == b) 256 ≡ true
unfolding every_below
table_ones = refl

-- On erased cells programming stores the bytes.
pub programmed-ones :
    (m : Memory) (a : ℕ) (bs : List ℕ)
    → ((x : ℕ) → within a (length bs) x ≡ true → m x ≡ 0xff)
    → ((i : ℕ) → get_or bs i 0 < 256)
    → programmed m a bs ≡ store m a bs
unfolding programmed store
programmed-ones m a bs ones bytes = fun_ext λ x. elim (Bool-cases (within a (length bs) x)) [
  | inl inside ↦ rw inside (
      ap (λ (k : ℕ). bit_and k (get_or bs (x - a) 0)) (ones x inside)
      ∙ (==_iff _ _).0 (every_below-at _ 256 table_ones _ (bytes (x - a))))
  | inr outside ↦ rw outside
]

-- Two neighbouring spans, programmed one behind the other, are programmed as one.
pub programmed-spans :
    (k m : Memory) (to from n j : ℕ)
    → programmed (programmed k to (span m from n)) (to + n) (span m (from + n) j)
      ≡ programmed k to (span m from (n + j))
programmed-spans k m to from n j =
    ap (λ (x : ℕ). programmed (programmed k to (span m from n)) x (span m (from + n) j))
      (omega (arith, length-span m from n))
    ∙ programmed-append k to (span m from n) (span m (from + n) j)
    ∙ ap (programmed k to) (sym (span-add m from n j))
