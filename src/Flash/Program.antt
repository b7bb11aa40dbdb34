-- ===== src/Flash/Program.antt =====
-- `do_flash_write` of src/cli/command.c programs its bytes in order, 128 at a time.
use k210_guard_bootloader.Prelude.{
  ℕ, zero, suc, ◌+◌, ◌-◌, ◌≤◌, ◌≡◌, sym, ap, ◌∙◌, inl, inr, true, List, arith,
}
use k210_guard_bootloader.Prelude.Tests.{ltb, ◌==◌, if◌then◌else◌, Bool-cases}
use k210_guard_bootloader.Prelude.Lists.{length, take, drop, length-drop}
use k210_guard_bootloader.Prelude.Words.{u32}
use k210_guard_bootloader.Prelude.Memory.{Memory}
use k210_guard_bootloader.Flash.{flash_write_data, write_loop, do_flash_write}
use k210_guard_bootloader.Flash.Ops.{FlashOps, FlashLaws, capacity, programmed}
use k210_guard_bootloader.Flash.Content.{programmed-nil}
use k210_guard_bootloader.Flash.Write.{
  programmed_twice, page_loop-keeps, flash_write_data-content, flash_write_data-IsReady,
  flash_write_data-IsWritable,
}

module _ {ℓ} (f : FlashOps) (P : FlashOps.State f → Type ℓ)
    (keep : (s : FlashOps.State f) (a : ℕ) (bs : List ℕ)
      → P s
      → P (FlashOps.page_program f s a bs)) where
  open f use {State, flash_check_status}

  write_loop-keeps :
      ((s : State) → P s → P (flash_check_status s))
      → (fuel : ℕ) (s : State) (offset len : ℕ) (bs : List ℕ) → P s
      → P (write_loop f fuel s offset len bs)
  unfolding write_loop flash_write_data
  write_loop-keeps check zero s offset len bs p = p
  write_loop-keeps check (suc fuel) s offset len bs p = elim (Bool-cases (len == 0)) [
    | inl done ↦ rw done p
    | inr more ↦
        rw more (
          write_loop-keeps check fuel _ _ _ _
            (check _ (page_loop-keeps f P keep _ s offset bs _ p)))
  ]

module _ (f : FlashOps) (laws : FlashLaws f) where
  open f use {State, flash_init, flash_enable_quad_mode}
  open laws use {content, IsReady, IsWritable}

  write_loop-content :
      (fuel : ℕ) (s : State) (offset len : ℕ) (bs : List ℕ)
      → len ≤ fuel
      → len ≤ length bs
      → IsReady s
      → IsWritable s
      → offset + len ≤ capacity
      → content (write_loop f fuel s offset len bs) ≡ programmed (content s) offset (take len bs)
  unfolding write_loop
  write_loop-content zero s addr len bs enough buf ready writable fits =
      sym
        (ap (λ (k : ℕ). programmed (content s) addr (take k bs)) none_left ∙ programmed-nil _ addr)
    where
      none_left : len ≡ 0
      none_left = omega arith
  write_loop-content (suc fuel) s addr len bs enough buf ready writable fits =
      elim (Bool-cases (len == 0)) [
        | inl done ↦ rw done (
            sym (
              ap (λ (k : ℕ). programmed (content s) addr (take k bs)) (none_left done)
              ∙ programmed-nil _ addr))
        | inr more ↦ rw more (
            write_loop-content fuel t (u32 (addr + n)) (len - n) (drop n bs) (ground arith)
              (ground (arith, length-drop n bs)) (flash_write_data-IsReady f laws s addr bs n ready)
              (flash_write_data-IsWritable f laws s addr bs n writable) (ground (arith, n_le))
            ∙ ap (λ (m : Memory). programmed m (u32 (addr + n)) (take (len - n) (drop n bs)))
                (flash_write_data-content f laws s addr bs n ready writable (omega (arith, n_le))
                  (omega (arith, n_le)))
            ∙ programmed_twice (content s) addr bs n (len - n) (u32 (addr + n))
                (omega (arith, n_le)) (omega (arith, n_le))
            ∙ ap (λ (k : ℕ). programmed (content s) addr (take k bs)) (omega (arith, n_le)))
      ]
    where
      n : ℕ
      n = if ltb 128 len then 128 else len

      n_le : n ≤ len
      n_le = ground arith

      t : State
      t = flash_write_data f s addr bs n

      none_left : (len == 0) ≡ true → len ≡ 0
      none_left h = ground arith

  -- With the chip unprotected and the range in the chip, `do_flash_write` programs the first
  -- `len` bytes of its buffer from the offset on.
  pub do_flash_write-content :
      (s : State) (offset len : ℕ) (bs : List ℕ)
      → IsWritable s
      → len ≤ length bs
      → offset + len ≤ capacity
      → content (do_flash_write f s offset len bs) ≡ programmed (content s) offset (take len bs)
  unfolding do_flash_write
  do_flash_write-content s offset len bs writable buf fits =
      write_loop-content len (flash_enable_quad_mode (flash_init 1 s)) offset len bs (omega arith)
        buf (laws.init-IsReady s) (laws.init-IsWritable s writable) fits
      ∙ ap (λ (m : Memory). programmed m offset (take len bs)) (laws.init-content s)

  pub do_flash_write-IsReady :
      (s : State) (offset len : ℕ) (bs : List ℕ) → IsReady (do_flash_write f s offset len bs)
  unfolding do_flash_write
  do_flash_write-IsReady s offset len bs =
      write_loop-keeps f IsReady laws.program-IsReady laws.check-IsReady len _ offset len bs
        (laws.init-IsReady s)
