-- ===== src/Flash/Read.antt =====
-- `flash_read_data` of src/drivers/flash.c returns the chip's content.
use k210_guard_bootloader.Prelude.{
  ℕ, zero, suc, ◌+◌, ◌-◌, ◌≤◌, ◌≡◌, refl, sym, ap₂, ◌∙◌, inl, inr, ◌++◌, arith,
}
use k210_guard_bootloader.Prelude.Tests.{ltb, ◌==◌, if◌then◌else◌, Bool-cases}
use k210_guard_bootloader.Prelude.Lists.{length, length-append}
use k210_guard_bootloader.Prelude.Words.{u32}
use k210_guard_bootloader.Prelude.Memory.{Memory, span, span_of_zero, span_split}
use k210_guard_bootloader.Flash.{read_loop, flash_read_data}
use k210_guard_bootloader.Flash.Ops.{FlashOps, FlashLaws, capacity}

module _ (f : FlashOps) where
  open f use {State, flash_read}

  -- What every transaction keeps, the loop keeps.
  read_loop-keeps {ℓ} :
      (P : State → Type ℓ)
      → ((s : State) (a n : ℕ) → P s → P (flash_read s a n).1)
      → (fuel : ℕ) (s : State) (addr len : ℕ) → P s
      → P (read_loop f fuel s addr len).1
  unfolding read_loop
  read_loop-keeps P keep zero s addr len p = p
  read_loop-keeps P keep (suc fuel) s addr len p = elim (Bool-cases (len == 0)) [
    | inl done ↦ rw done p
    | inr more ↦ rw more (read_loop-keeps P keep fuel _ _ _ (keep s addr _ p))
  ]

module _ (f : FlashOps) (laws : FlashLaws f) where
  open f use {State, flash_read}
  open laws use {content, IsReady, IsWritable}

  pub flash_read_data-content :
      (s : State) (addr len : ℕ) → content (flash_read_data f s addr len).1 ≡ content s
  unfolding flash_read_data
  flash_read_data-content s addr len =
      read_loop-keeps f (λ t. content t ≡ content s) (λ t a n e. laws.read-content t a n ∙ e) len s
        addr len refl

  pub flash_read_data-IsReady :
      (s : State) (addr len : ℕ) → IsReady s → IsReady (flash_read_data f s addr len).1
  unfolding flash_read_data
  flash_read_data-IsReady s addr len = read_loop-keeps f IsReady laws.read-IsReady len s addr len

  pub flash_read_data-IsWritable :
      (s : State) (addr len : ℕ) → IsWritable s → IsWritable (flash_read_data f s addr len).1
  unfolding flash_read_data
  flash_read_data-IsWritable s addr len =
      read_loop-keeps f IsWritable laws.read-IsWritable len s addr len

  read_loop-length :
      (fuel : ℕ) (s : State) (addr len : ℕ)
      → len ≤ fuel
      → length (read_loop f fuel s addr len).0 ≡ len
  unfolding read_loop
  read_loop-length zero s addr len enough = omega arith
  read_loop-length (suc fuel) s addr len enough = elim (Bool-cases (len == 0)) [
    | inl done ↦ rw done (ground arith)
    | inr more ↦ rw more (
        length-append (flash_read s addr n).0 _
        ∙ ap₂ ◌+◌ (laws.read-length s addr n) (
            read_loop-length fuel (flash_read s addr n).1 (u32 (addr + n)) (len - n) (ground arith))
        ∙ ground arith)
  ]
    where
      n : ℕ
      n = if ltb 32 len then 32 else len

  read_loop-bytes :
      (fuel : ℕ) (s : State) (addr len : ℕ)
      → len ≤ fuel
      → IsReady s
      → addr + len ≤ capacity
      → (read_loop f fuel s addr len).0 ≡ span (content s) addr len
  unfolding read_loop
  read_loop-bytes zero s addr len enough ready fits =
      sym (span_of_zero (content s) addr len (omega arith))
  read_loop-bytes (suc fuel) s addr len enough ready fits = elim (Bool-cases (len == 0)) [
    | inl done ↦ rw done (sym (span_of_zero (content s) addr len (ground arith)))
    | inr more ↦ rw more (
        ap₂ ◌++◌ (laws.read-bytes s addr n ready (ground arith) (ground arith)) (
          read_loop-bytes fuel t (u32 (addr + n)) (len - n) (ground arith)
            (laws.read-IsReady s addr n ready) (ground arith)
          ∙ ap₂ (λ (m : Memory) (x : ℕ). span m x (len - n)) (laws.read-content s addr n)
              (ground arith))
        ∙ sym (span_split (content s) addr n len (ground arith)))
  ]
    where
      n : ℕ
      n = if ltb 32 len then 32 else len

      t : State
      t = (flash_read s addr n).1

  pub flash_read_data-length :
      (s : State) (addr len : ℕ) → length (flash_read_data f s addr len).0 ≡ len
  unfolding flash_read_data
  flash_read_data-length s addr len = read_loop-length len s addr len (omega arith)

  -- In quad mode, and for a range in the chip, `flash_read_data` returns the chip's content
  -- from the address on.
  pub flash_read_data-bytes :
      (s : State) (addr len : ℕ)
      → IsReady s
      → addr + len ≤ capacity
      → (flash_read_data f s addr len).0 ≡ span (content s) addr len
  unfolding flash_read_data
  flash_read_data-bytes s addr len ready fits =
      read_loop-bytes len s addr len (omega arith) ready fits
