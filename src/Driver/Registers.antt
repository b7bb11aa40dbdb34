-- ===== src/Driver/Registers.antt =====
-- The status registers of the flash chip: `flash_write_status_reg`, `flash_disable_protect` and
-- `flash_enable_quad_mode` of src/drivers/flash.c.
use k210_guard_bootloader.Prelude.{
  ℕ, ◌/◌, ◌%◌, ◌<◌, bit_and, bit_or, ◌≡◌, ◌≢◌, refl, ap, ◌∙◌, inl, inr, true, false, arith, Bool,
  ◌&&◌, ◌||◌, ◌||◌,
}
use k210_guard_bootloader.Prelude.Tests.{ltb, ◌==◌}
use k210_guard_bootloader.Prelude.Bits.{bit_and_mask, every_below, every_below-at}
use k210_guard_bootloader.Driver.{
  Handle, handle_of, flash_read_status_reg1, flash_read_status_reg2, flash_write_status_reg,
  flash_disable_protect,
}
use k210_guard_bootloader.Driver.Bus.{
  BusOps, BusLaws, ChipState, Later, Quad, Unprotected, limit, spi3,
}
use k210_guard_bootloader.Driver.Status.{
  IsHandle, Later-trans, status2_lem, status1-Later, status2-Later, check-Later,
  flash_check_status-idle,
}
use k210_guard_bootloader.Driver.Commands.{
  enable-Later, enabled_bus, enabled_bus-Later, enabled_bus-enabled, enabled_bus-idle,
}

-- The registers hold `r1` and `r2`, the cells are as before, the write ends in time.
pub record Written (r1 r2 : ℕ) (c d : ChipState) : Type 0 where
  pub same_content : d.content ≡ c.content
  pub new_upper : d.upper ≡ r1 / 4
  pub new_status2 : d.status2 ≡ r2
  pub in_time : d.busy < limit

Written-of :
    (r1 r2 : ℕ) (c d e : ChipState)
    → Later c d
    → (e.content ≡ d.content) × (e.upper ≡ r1 / 4) × (e.status2 ≡ r2) × e.busy < limit
    → Written r1 r2 c e
Written-of r1 r2 c d e p (q, upper, status2, time) = record {
  same_content = q ∙ p.same_content;
  new_upper = upper;
  new_status2 = status2;
  in_time = time;
}

-- What the driver's masks do to a byte.
abbrev masks : ℕ → Bool
masks s =
    (bit_and (bit_and s 3) 2 == bit_and s 2)
    && ltb (bit_or s 2) 256
    && (bit_and (bit_or s 2) 2 == 2)
    && (bit_or s 2 / 64 % 2 == s / 64 % 2)
    && ((bit_and s 2 == 0) || (bit_and s 2 == 2))

masks_lem : (s : ℕ) → s < 256 → masks s ≡ true
unfolding every_below
masks_lem s h = every_below-at masks 256 refl s h

module _ (s : ℕ) (byte : s < 256) where
  pub kept_quad : bit_and (bit_and s 3) 2 ≡ bit_and s 2
  kept_quad = ground (arith, masks_lem s byte)

  pub byte_or : bit_or s 2 < 256
  byte_or = ground (arith, masks_lem s byte)

  pub quad_or : bit_and (bit_or s 2) 2 ≡ 2
  quad_or = ground (arith, masks_lem s byte)

  pub complement_or : bit_or s 2 / 64 % 2 ≡ s / 64 % 2
  complement_or = ground (arith, masks_lem s byte)

  pub quad_set : (bit_and s 2 == 0) ≡ false → bit_and s 2 ≡ 2
  quad_set h = ground (arith, masks_lem s byte, h)

module _ (o : BusOps) (laws : BusLaws o) where
  open o use {Bus}
  open laws use {chip}

  pub write-elsewhere :
      (g : Handle) (r1 r2 : ℕ) (b : Bus)
      → g.spi_handle ≢ spi3
      → Later (chip b) (chip (flash_write_status_reg o g r1 r2 b))
  unfolding flash_write_status_reg
  write-elsewhere g r1 r2 b h =
      Later-trans _ _ _ (enable-Later o laws g b (inl h)) (laws.send-elsewhere _ _ _ _ _ _ h)

  pub flash_write_status_reg-Written :
      (r1 r2 : ℕ) (b : Bus)
      → (chip b).busy ≡ 0
      → r1 < 256
      → r2 < 256
      → Written r1 r2 (chip b) (chip (flash_write_status_reg o (handle_of 1) r1 r2 b))
  unfolding flash_write_status_reg enabled_bus handle_of
  flash_write_status_reg-Written r1 r2 b idle h1 h2 =
      Written-of r1 r2 _ _ _ (enabled_bus-Later o laws b idle) (
        laws.write_status (enabled_bus o laws b idle) r1 r2 (enabled_bus-idle o laws b idle)
          (enabled_bus-enabled o laws b idle) h1 h2)

  -- The two registers are read before a write, and after it.
  pub read_twice :
      (g : Handle) (b : Bus)
      → IsHandle g
      → Later (chip b) (chip (flash_read_status_reg2 o g (flash_read_status_reg1 o g b).1).1)
  read_twice g b h = Later-trans _ _ _ (status1-Later o laws g b h) (status2-Later o laws g _ h)

  -- `flash_disable_protect` up to its last wait.
  module _ (b : Bus) where
    abbrev g : Handle
    g = handle_of 1

    abbrev u : Bus
    u = (flash_read_status_reg2 o g (flash_read_status_reg1 o g b).1).1

    reg2 : ℕ
    reg2 = (flash_read_status_reg2 o g (flash_read_status_reg1 o g b).1).0

    reg2-eq : reg2 ≡ (chip b).status2
    unfolding reg2
    reg2-eq =
        status2_lem o laws (flash_read_status_reg1 o g b).1
        ∙ (status1-Later o laws g b (inr refl)).same_status2

    module _ (idle : (chip b).busy ≡ 0) where
      written :
          Written 0x00
            (bit_and reg2 0x03)
            (chip u)
            (chip (flash_write_status_reg o g 0x00 (bit_and reg2 0x03) u))
      written =
          flash_write_status_reg-Written 0x00 (bit_and reg2 0x03) u
            (omega (arith, idle, (read_twice g b (inr refl)).less_busy)) (omega arith)
            (ground (arith, bit_and_mask 2 reg2))

      unfoldable pub disabled : Bus
      disabled = (flash_disable_protect o g b).1

      after_write :
          Later (chip (flash_write_status_reg o g 0x00 (bit_and reg2 0x03) u)) (chip disabled)
      unfolding disabled flash_disable_protect reg2
      after_write =
          Later-trans _ _ _ (read_twice g _ (inr refl)) (check-Later o laws g _ (inr refl))

      pub disable-status2 : (chip disabled).status2 ≡ bit_and (chip b).status2 3
      disable-status2 =
          after_write.same_status2 ∙ written.new_status2 ∙ ap (λ x. bit_and x 3) reg2-eq

      pub disable-Unprotected : Unprotected (chip disabled)
      disable-Unprotected = (
        ap (λ (x : ℕ). x % 8) (after_write.same_upper ∙ written.new_upper),
        ground (arith, disable-status2, bit_and_mask 2 (chip b).status2),
      )

      pub disable-Quad : Quad (chip b) → Quad (chip disabled)
      disable-Quad h = ap (λ x. bit_and x 2) disable-status2 ∙ kept_quad _ (laws.status2-lt b) ∙ h

      pub disable-idle : (chip disabled).busy ≡ 0
      unfolding disabled flash_disable_protect reg2
      disable-idle =
          (flash_check_status-idle o laws _ (
            omega (
              arith,
              written.in_time,
              (read_twice g (flash_write_status_reg o g 0x00 (bit_and reg2 0x03) u)
                  (inr refl)).less_busy,
            ))).1

      pub disable-content : (chip disabled).content ≡ (chip b).content
      disable-content =
          after_write.same_content ∙ written.same_content ∙ (read_twice g b (inr refl)).same_content

  pub disable-elsewhere :
      (g : Handle) (b : Bus)
      → g.spi_handle ≢ spi3
      → Later (chip b) (chip (flash_disable_protect o g b).1)
  unfolding flash_disable_protect
  disable-elsewhere g b h = Later-trans _ _ _ (read_twice g b (inl h)) (
      Later-trans _ _ _ (write-elsewhere g _ _ _ h)
        (Later-trans _ _ _ (read_twice g _ (inl h)) (check-Later o laws g _ (inl h))))
