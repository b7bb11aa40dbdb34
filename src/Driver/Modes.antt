-- ===== src/Driver/Modes.antt =====
-- `flash_init` and `flash_read` of src/drivers/flash.c.
use k210_guard_bootloader.Prelude.{
  ℕ, zero, suc, ◌+◌, ◌*◌, ◌^◌, ◌≤◌, ◌≡◌, refl, sym, ap, subst, ◌∙◌, inl, inr, List, [], ◌∷◌, arith,
}
use k210_guard_bootloader.Prelude.Tests.{◌==◌, Bool-cases}
use k210_guard_bootloader.Prelude.Lists.{length}
use k210_guard_bootloader.Prelude.Words.{u32}
use k210_guard_bootloader.Prelude.Memory.{span}
use k210_guard_bootloader.Flash.Ops.{capacity}
use k210_guard_bootloader.Driver.{
  Handle, Driver, flash_quad_single, handle_of, set_up, flash_read, flash_init,
}
use k210_guard_bootloader.Driver.Bus.{BusOps, BusLaws, Later, Quad, spi3, ctrlr0, spi_ctrlr0}
use k210_guard_bootloader.Driver.Status.{IsHandle, Later-trans}

empty : (bs : List ℕ) → length bs ≡ 0 → bs ≡ []
empty [] h = refl
empty (x ∷ bs) h = absurd (omega (arith, h))

pub handle_of-IsHandle : (i : ℕ) → IsHandle (handle_of i)
unfolding handle_of
handle_of-IsHandle i = elim (Bool-cases (i == 0)) [
  | inl first ↦ rw first (inl (λ e. omega (arith, e)))
  | inr other ↦ rw other (inr refl)
]

module _ (o : BusOps) (laws : BusLaws o) where
  open o use {Bus, write, flash_send_data, flash_receive_data_enhanced}
  open laws use {chip}

  reset-Later :
      (g : Handle) (b : Bus)
      → IsHandle g
      → Later
          (chip b)
          (chip (flash_send_data g.spi_handle g.dfs_offset g.tmod_offset (0xff ∷ 0xff ∷ []) [] b))
  unfolding handle_of
  reset-Later g b (inl h) = laws.send-elsewhere _ _ _ _ _ b h
  reset-Later g b (inr e) =
      subst
        (λ (k : Handle).
          Later (chip b) (
            chip (flash_send_data k.spi_handle k.dfs_offset k.tmod_offset (0xff ∷ 0xff ∷ []) [] b)))
        (sym e) (laws.reset-Later b)

  pub init-Later : (i : ℕ) (d : Driver o) → Later (chip d.bus) (chip (flash_init o i d).bus)
  unfolding flash_init
  init-Later i d = Later-trans _ _ _ (laws.attach-Later i d.bus) (
      Later-trans _ _ _ (laws.write-Later _ _ _ _) (
        Later-trans _ _ _ (laws.write-Later _ _ _ _) (
          Later-trans _ _ _ (laws.write-Later _ _ _ _) (
            Later-trans _ _ _ (laws.write-Later _ _ _ _)
              (reset-Later (handle_of i) _ (handle_of-IsHandle i))))))

  pub flash_read-length :
      (g : Handle) (a n : ℕ) (b : Bus) → length (flash_read o g a n flash_quad_single b).0 ≡ n
  unfolding flash_read
  flash_read-length g a n b = laws.receive_enhanced-length _ _ n _

  quad_at_chip :
      (a n : ℕ) (b : Bus)
      → Later (chip b) (chip (flash_read o (handle_of 1) a n flash_quad_single b).1)
  unfolding flash_read set_up handle_of
  quad_at_chip a n b = laws.quad_read-Later b (u32 (a * 2 ^ 8)) n

  pub flash_read-Later :
      (g : Handle) (a n : ℕ) (b : Bus)
      → IsHandle g
      → Later (chip b) (chip (flash_read o g a n flash_quad_single b).1)
  unfolding flash_read set_up
  flash_read-Later g a n b (inl h) =
      Later-trans _ _ _ (laws.write-Later _ _ _ _)
        (Later-trans _ _ _ (laws.write-Later _ _ _ _) (laws.receive_enhanced-elsewhere _ _ _ _ h))
  flash_read-Later g a n b (inr e) =
      subst (λ (k : Handle). Later (chip b) (chip (flash_read o k a n flash_quad_single b).1))
        (sym e) (quad_at_chip a n b)

  -- On an idle chip with four data lines, `flash_read` in mode FLASH_QUAD_SINGLE reads the bytes at
  -- its address: shifting the address left for the mode bits loses nothing.
  pub flash_read-bytes :
      (a n : ℕ) (b : Bus)
      → (chip b).busy ≡ 0
      → Quad (chip b)
      → a + n ≤ capacity
      → (flash_read o (handle_of 1) a n flash_quad_single b).0 ≡ span (chip b).content a n
  unfolding flash_read set_up handle_of span
  flash_read-bytes a zero b idle four fits = empty _ (laws.receive_enhanced-length _ _ 0 _)
  flash_read-bytes a (suc n) b idle four fits =
      ap
        (λ (w : ℕ).
          (flash_receive_data_enhanced spi3 (0xeb ∷ w ∷ []) (suc n)
            (write spi3 spi_ctrlr0 0x2221 (write spi3 ctrlr0 0x800807 b))).0)
        no_loss
      ∙ laws.quad_read-bytes b a (suc n) idle four fits
    where
      no_loss : u32 (a * 2 ^ 8) ≡ a * 2 ^ 8
      no_loss = omega arith
