-- ===== src/Flash/Write.antt =====
-- `flash_write_data` of src/drivers/flash.c programs its
-- bytes in order, and each transaction stays within a page.
use k210_guard_bootloader.Prelude.{
  ℕ, zero, suc, ◌+◌, ◌-◌, ◌%◌, ◌≤◌, bit_and, ◌≡◌, sym, ap, ◌∙◌, inl, inr, true, List, arith,
}
use k210_guard_bootloader.Prelude.Tests.{ltb, ◌==◌, if◌then◌else◌, Bool-cases}
use k210_guard_bootloader.Prelude.Lists.{length, take, drop, length-take, length-drop, take-add}
use k210_guard_bootloader.Prelude.Bits.{bit_and_mask}
use k210_guard_bootloader.Prelude.Words.{u32}
use k210_guard_bootloader.Prelude.Memory.{Memory}
use k210_guard_bootloader.Flash.{chunk_loop, page_loop, flash_write_data}
use k210_guard_bootloader.Flash.Ops.{FlashOps, FlashLaws, capacity, programmed}
use k210_guard_bootloader.Flash.Content.{programmed-append, programmed-nil}

-- `take n` of a buffer, then the next `k`: what two writes in a row program.
pub programmed_twice :
    (m : Memory) (a : ℕ) (bs : List ℕ) (n k b : ℕ)
    → n ≤ length bs
    → a + n ≡ b
    → programmed (programmed m a (take n bs)) b (take k (drop n bs))
      ≡ programmed m a (take (n + k) bs)
programmed_twice m a bs n k b h e =
    ap (λ (x : ℕ). programmed (programmed m a (take n bs)) x (take k (drop n bs))) (sym at)
    ∙ programmed-append m a (take n bs) (take k (drop n bs))
    ∙ ap (programmed m a) (sym (take-add n k bs))
  where
    at : a + length (take n bs) ≡ b
    at = omega (arith, length-take n bs)

module _ (f : FlashOps) where
  open f use {State, page_program, flash_check_status, flash_init, flash_enable_quad_mode}

  module _ {ℓ} (P : State → Type ℓ)
      (keep : (s : State) (a : ℕ) (bs : List ℕ) → P s → P (page_program s a bs)) where
    chunk_loop-keeps :
        (fuel : ℕ) (s : State) (addr : ℕ) (bs : List ℕ) (len : ℕ)
        → P s
        → P (chunk_loop f fuel s addr bs len)
    unfolding chunk_loop
    chunk_loop-keeps zero s addr bs len p = p
    chunk_loop-keeps (suc fuel) s addr bs len p = elim (Bool-cases (len == 0)) [
      | inl done ↦ rw done p
      | inr more ↦ rw more (chunk_loop-keeps fuel _ _ _ _ (keep s addr _ p))
    ]

    pub page_loop-keeps :
        (fuel : ℕ) (s : State) (addr : ℕ) (bs : List ℕ) (len : ℕ)
        → P s
        → P (page_loop f fuel s addr bs len)
    unfolding page_loop
    page_loop-keeps zero s addr bs len p = p
    page_loop-keeps (suc fuel) s addr bs len p = elim (Bool-cases (len == 0)) [
      | inl done ↦ rw done p
      | inr more ↦ rw more (page_loop-keeps fuel _ _ _ _ (chunk_loop-keeps _ s addr bs _ p))
    ]

module _ (f : FlashOps) (laws : FlashLaws f) where
  open f use {State, page_program, flash_check_status, flash_init, flash_enable_quad_mode}
  open laws use {content, IsReady, IsWritable}

  chunk_loop-content :
      (fuel : ℕ) (s : State) (addr : ℕ) (bs : List ℕ) (len : ℕ)
      → len ≤ fuel
      → len ≤ length bs
      → IsReady s
      → IsWritable s
      → addr % 256 + len ≤ 256
      → addr + len ≤ capacity
      → content (chunk_loop f fuel s addr bs len) ≡ programmed (content s) addr (take len bs)
  unfolding chunk_loop
  chunk_loop-content zero s addr bs len enough buf ready writable page fits =
      sym
        (ap (λ (k : ℕ). programmed (content s) addr (take k bs)) none_left ∙ programmed-nil _ addr)
    where
      none_left : len ≡ 0
      none_left = omega arith
  chunk_loop-content (suc fuel) s addr bs len enough buf ready writable page fits =
      elim (Bool-cases (len == 0)) [
        | inl done ↦ rw done (
            sym (
              ap (λ (k : ℕ). programmed (content s) addr (take k bs)) (none_left done)
              ∙ programmed-nil _ addr))
        | inr more ↦ rw more (
            chunk_loop-content fuel t (u32 (addr + n)) (drop n bs) (len - n) (ground arith)
              (ground (arith, length-drop n bs)) (laws.program-IsReady s addr (take n bs) ready)
              (laws.program-IsWritable s addr (take n bs) writable) (ground arith) (ground arith)
            ∙ ap (λ (m : Memory). programmed m (u32 (addr + n)) (take (len - n) (drop n bs)))
                (laws.program-content s addr (take n bs) ready writable
                  (ground (arith, length-take n bs)) (ground (arith, length-take n bs))
                  (ground (arith, length-take n bs)))
            ∙ programmed_twice (content s) addr bs n (len - n) (u32 (addr + n)) (ground arith)
                (ground arith)
            ∙ ap (λ (k : ℕ). programmed (content s) addr (take k bs)) (ground arith))
      ]
    where
      n : ℕ
      n = if ltb 32 len then 32 else len

      t : State
      t = page_program s addr (take n bs)

      none_left : (len == 0) ≡ true → len ≡ 0
      none_left h = ground arith

  chunk_loop-IsReady :
      (fuel : ℕ) (s : State) (addr : ℕ) (bs : List ℕ) (len : ℕ)
      → IsReady s
      → IsReady (chunk_loop f fuel s addr bs len)
  chunk_loop-IsReady = chunk_loop-keeps f IsReady laws.program-IsReady

  chunk_loop-IsWritable :
      (fuel : ℕ) (s : State) (addr : ℕ) (bs : List ℕ) (len : ℕ)
      → IsWritable s
      → IsWritable (chunk_loop f fuel s addr bs len)
  chunk_loop-IsWritable = chunk_loop-keeps f IsWritable laws.program-IsWritable

  page_loop-content :
      (fuel : ℕ) (s : State) (addr : ℕ) (bs : List ℕ) (len : ℕ)
      → len ≤ fuel
      → len ≤ length bs
      → IsReady s
      → IsWritable s
      → addr + len ≤ capacity
      → content (page_loop f fuel s addr bs len) ≡ programmed (content s) addr (take len bs)
  unfolding page_loop
  page_loop-content zero s addr bs len enough buf ready writable fits =
      sym
        (ap (λ (k : ℕ). programmed (content s) addr (take k bs)) none_left ∙ programmed-nil _ addr)
    where
      none_left : len ≡ 0
      none_left = omega arith
  page_loop-content (suc fuel) s addr bs len enough buf ready writable fits =
      elim (Bool-cases (len == 0)) [
        | inl done ↦ rw done (
            sym (
              ap (λ (k : ℕ). programmed (content s) addr (take k bs)) (none_left done)
              ∙ programmed-nil _ addr))
        | inr more ↦ rw more (
            page_loop-content fuel t (u32 (addr + n)) (drop n bs) (len - n)
              (ground (arith, page_offset)) (ground (arith, length-drop n bs, n_le))
              (chunk_loop-IsReady n s addr bs n ready)
              (chunk_loop-IsWritable n s addr bs n writable) (ground (arith, n_le))
            ∙ ap (λ (m : Memory). programmed m (u32 (addr + n)) (take (len - n) (drop n bs)))
                (chunk_loop-content n s addr bs n (omega arith) (omega (arith, n_le)) ready writable
                  (omega (arith, n_in_page)) (omega (arith, n_le)))
            ∙ programmed_twice (content s) addr bs n (len - n) (u32 (addr + n))
                (omega (arith, n_le)) (omega (arith, n_le))
            ∙ ap (λ (k : ℕ). programmed (content s) addr (take k bs)) (omega (arith, n_le)))
      ]
    where
      page_remain : ℕ
      page_remain = 256 - bit_and addr (256 - 1)

      n : ℕ
      n = if ltb len page_remain then len else page_remain

      page_offset : bit_and addr (256 - 1) ≡ addr % 256
      page_offset = bit_and_mask 8 addr

      n_le : n ≤ len
      n_le = ground arith

      n_in_page : addr % 256 + n ≤ 256
      n_in_page = ground (arith, page_offset)

      t : State
      t = chunk_loop f n s addr bs n

      none_left : (len == 0) ≡ true → len ≡ 0
      none_left h = ground arith

  -- With the driver in quad mode, the chip unprotected, and the range in the chip,
  -- `flash_write_data` programs the first `len` bytes of its buffer from the address on.
  pub flash_write_data-content :
      (s : State) (addr : ℕ) (bs : List ℕ) (len : ℕ)
      → IsReady s
      → IsWritable s
      → len ≤ length bs
      → addr + len ≤ capacity
      → content (flash_write_data f s addr bs len) ≡ programmed (content s) addr (take len bs)
  unfolding flash_write_data
  flash_write_data-content s addr bs len ready writable buf fits =
      laws.check-content _
      ∙ page_loop-content len s addr bs len (omega arith) buf ready writable fits

  pub flash_write_data-IsReady :
      (s : State) (addr : ℕ) (bs : List ℕ) (len : ℕ)
      → IsReady s
      → IsReady (flash_write_data f s addr bs len)
  unfolding flash_write_data
  flash_write_data-IsReady s addr bs len ready =
      laws.check-IsReady _ (page_loop-keeps f IsReady laws.program-IsReady len s addr bs len ready)

  pub flash_write_data-IsWritable :
      (s : State) (addr : ℕ) (bs : List ℕ) (len : ℕ)
      → IsWritable s
      → IsWritable (flash_write_data f s addr bs len)
  unfolding flash_write_data
  flash_write_data-IsWritable s addr bs len writable =
      laws.check-IsWritable _
        (page_loop-keeps f IsWritable laws.program-IsWritable len s addr bs len writable)
