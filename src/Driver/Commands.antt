-- ===== src/Driver/Commands.antt =====
-- The commands of src/drivers/flash.c that write to the chip's cells: each starts from an idle
-- chip, and leaves one.
use k210_guard_bootloader.Prelude.{
  ℕ, ◌+◌, ◌/◌, ◌%◌, ◌≤◌, ◌<◌, bit_and, ◌≡◌, refl, sym, ap, subst, ◌∙◌, inl, inr, true, List, [],
  ◌∷◌, arith,
}
use k210_guard_bootloader.Prelude.Lists.{length}
use k210_guard_bootloader.Prelude.Memory.{Memory}
use k210_guard_bootloader.Flash.Ops.{capacity, programmed, erased}
use k210_guard_bootloader.Driver.{
  Handle, Pointer, unset, standard, quad, handle_of, command, set_up, flash_write_enable,
  flash_check_status, flash_sector_erase, flash_page_program, flash_quad_page_program, page_program,
}
use k210_guard_bootloader.Driver.Bus.{
  BusOps, BusLaws, ChipState, spi3, ctrlr0, spi_ctrlr0, Later, Begun, Quad, Unprotected,
}
use k210_guard_bootloader.Driver.Status.{
  IsHandle, Later-refl, Later-trans, check-Later, flash_check_status-idle,
}

-- The cells may have changed; the chip is idle.
pub record Finished (c d : ChipState) : Type 0 where
  pub same_upper : d.upper ≡ c.upper
  pub same_status2 : d.status2 ≡ c.status2
  pub idle : d.busy ≡ 0

pub Later-Finished : (c d : ChipState) → c.busy ≡ 0 → Later c d → Finished c d
Later-Finished c d h p = record {
  same_upper = p.same_upper;
  same_status2 = p.same_status2;
  idle = omega (arith, h, p.less_busy);
}

pub Later-Unprotected : (c d : ChipState) → Later c d → Unprotected c → Unprotected d
Later-Unprotected c d p (h, k) =
    (ap (λ (x : ℕ). x % 8) p.same_upper ∙ h, ap (λ (x : ℕ). x / 64 % 2) p.same_status2 ∙ k)

module _ (o : BusOps) (laws : BusLaws o) where
  open o use {Bus, write, flash_send_data, flash_send_data_enhanced}
  open laws use {chip}

  pub enable-Later :
      (g : Handle) (b : Bus) → IsHandle g → Later (chip b) (chip (flash_write_enable o g b))
  unfolding flash_write_enable handle_of
  enable-Later g b (inl h) = laws.send-elsewhere _ _ _ _ _ b h
  enable-Later g b (inr e) =
      subst (λ (k : Handle). Later (chip b) (chip (flash_write_enable o k b))) (sym e) at_chip
    where
      at_chip : Later (chip b) (chip (flash_write_enable o (handle_of 1) b))
      at_chip = laws.enable-Later b

  module _ (b : Bus) (idle : (chip b).busy ≡ 0) where
    unfoldable pub enabled_bus : Bus
    enabled_bus = flash_write_enable o (handle_of 1) b

    pub enabled_bus-Later : Later (chip b) (chip enabled_bus)
    unfolding enabled_bus
    enabled_bus-Later = enable-Later (handle_of 1) b (inr refl)

    pub enabled_bus-enabled : (chip enabled_bus).enabled ≡ true
    unfolding enabled_bus flash_write_enable handle_of
    enabled_bus-enabled = laws.enable-enabled b idle

    pub enabled_bus-idle : (chip enabled_bus).busy ≡ 0
    enabled_bus-idle = omega (arith, idle, enabled_bus-Later.less_busy)

    -- A command, a write in progress, and the wait for its end.
    module _ (t : Bus) (begun : Begun (chip enabled_bus) (chip t)) where
      pub check-Finished : Finished (chip b) (chip (flash_check_status o (handle_of 1) t).1)
      check-Finished = record {
        same_upper =
            (check-Later o laws (handle_of 1) t (inr refl)).same_upper
            ∙ begun.same_upper
            ∙ enabled_bus-Later.same_upper;
        same_status2 =
            (check-Later o laws (handle_of 1) t (inr refl)).same_status2
            ∙ begun.same_status2
            ∙ enabled_bus-Later.same_status2;
        idle = (flash_check_status-idle o laws t begun.in_time).1;
      }

  pub check-content :
      (t : Bus) → (chip (flash_check_status o (handle_of 1) t).1).content ≡ (chip t).content
  check-content t = (check-Later o laws (handle_of 1) t (inr refl)).same_content

  -- On another controller a command only takes time.
  elsewhere-Finished :
      (g : Handle) (b t : Bus)
      → IsHandle g
      → (chip b).busy ≡ 0
      → Later (chip (flash_write_enable o g b)) (chip t)
      → Finished (chip b) (chip (flash_check_status o g t).1)
  elsewhere-Finished g b t h idle p =
      Later-Finished _ _ idle
        (Later-trans _ _ _ (enable-Later g b h) (Later-trans _ _ _ p (check-Later o laws g t h)))

  module _ (b : Bus) (a : ℕ) (bs : List ℕ) (idle : (chip b).busy ≡ 0) where
    erase-Begun :
        Begun
          (chip (enabled_bus b idle))
          (chip (flash_send_data spi3 0 10 (command 0x20 a) [] (enabled_bus b idle)))
    unfolding command
    erase-Begun = laws.erase-Begun _ a (enabled_bus-idle b idle) (enabled_bus-enabled b idle)

    program-Begun :
        Begun
          (chip (enabled_bus b idle))
          (chip (flash_send_data spi3 0 10 (command 0x02 a) bs (enabled_bus b idle)))
    unfolding command
    program-Begun = laws.program-Begun _ a bs (enabled_bus-idle b idle) (enabled_bus-enabled b idle)

    quad-Begun : Begun (chip (enabled_bus b idle)) (
        chip (
          flash_send_data_enhanced spi3
            (0x32 ∷ a ∷ [])
            bs
            (write spi3 spi_ctrlr0 0x218 (write spi3 ctrlr0 0x800407 (enabled_bus b idle)))))
    quad-Begun =
        laws.quad_program-Begun _ a bs (enabled_bus-idle b idle) (enabled_bus-enabled b idle)

    -- At the end of each command, on the chip's controller and with its offsets.
    erase_done : Finished (chip b) (chip (flash_sector_erase o (handle_of 1) a b).1)
    unfolding flash_sector_erase enabled_bus handle_of
    erase_done = check-Finished b idle _ erase-Begun

    program_done : Finished (chip b) (chip (flash_page_program o (handle_of 1) a bs b).1)
    unfolding flash_page_program enabled_bus handle_of
    program_done = check-Finished b idle _ program-Begun

    quad_done : Finished (chip b) (chip (flash_quad_page_program o (handle_of 1) a bs b).1)
    unfolding flash_quad_page_program enabled_bus handle_of set_up
    quad_done = check-Finished b idle _ quad-Begun

    pub flash_sector_erase-Finished :
        (g : Handle) → IsHandle g → Finished (chip b) (chip (flash_sector_erase o g a b).1)
    unfolding flash_sector_erase
    flash_sector_erase-Finished g (inl h) =
        elsewhere-Finished g b _ (inl h) idle (laws.send-elsewhere _ _ _ _ _ _ h)
    flash_sector_erase-Finished g (inr e) =
        subst (λ (k : Handle). Finished (chip b) (chip (flash_sector_erase o k a b).1)) (sym e)
          erase_done

    pub flash_page_program-Finished :
        (g : Handle) → IsHandle g → Finished (chip b) (chip (flash_page_program o g a bs b).1)
    unfolding flash_page_program
    flash_page_program-Finished g (inl h) =
        elsewhere-Finished g b _ (inl h) idle (laws.send-elsewhere _ _ _ _ _ _ h)
    flash_page_program-Finished g (inr e) =
        subst (λ (k : Handle). Finished (chip b) (chip (flash_page_program o k a bs b).1)) (sym e)
          program_done

    pub flash_quad_page_program-Finished :
        (g : Handle) → IsHandle g → Finished (chip b) (chip (flash_quad_page_program o g a bs b).1)
    unfolding flash_quad_page_program set_up
    flash_quad_page_program-Finished g (inl h) = elsewhere-Finished g b _ (inl h) idle (
        Later-trans _ _ _ (laws.write-Later _ _ _ _)
          (Later-trans _ _ _ (laws.write-Later _ _ _ _) (laws.send_enhanced-elsewhere _ _ _ _ h)))
    flash_quad_page_program-Finished g (inr e) =
        subst (λ (k : Handle). Finished (chip b) (chip (flash_quad_page_program o k a bs b).1))
          (sym e) quad_done

    pub page_program-Finished :
        (p : Pointer) (g : Handle)
        → IsHandle g
        → Finished (chip b) (chip (page_program o p g a bs b).1)
    unfolding page_program
    page_program-Finished unset g h = Later-Finished _ _ idle (Later-refl (chip b))
    page_program-Finished standard g h = flash_page_program-Finished g h
    page_program-Finished quad g h = flash_quad_page_program-Finished g h

    module _ (free : Unprotected (chip b)) where
      free_now : Unprotected (chip (enabled_bus b idle))
      free_now = Later-Unprotected _ _ (enabled_bus-Later b idle) free

      -- On an idle chip that is not protected, `flash_sector_erase` erases the sector of its
      -- address, and nothing else.
      pub flash_sector_erase-content :
          a < capacity
          → (chip (flash_sector_erase o (handle_of 1) a b).1).content ≡ erased (chip b).content a
      unfolding flash_sector_erase command enabled_bus handle_of
      flash_sector_erase-content fits =
          check-content _
          ∙ laws.erase-content _ a (enabled_bus-idle b idle) (enabled_bus-enabled b idle) free_now
              fits
          ∙ ap (λ (m : Memory). erased m a) (enabled_bus-Later b idle).same_content

      -- On an idle chip that is not protected, with the bytes within one page, `flash_page_program`
      -- programs them at its address.
      pub flash_page_program-content :
          a % 256 + length bs ≤ 256
          → a + length bs ≤ capacity
          → (chip (flash_page_program o (handle_of 1) a bs b).1).content
            ≡ programmed (chip b).content a bs
      unfolding flash_page_program command enabled_bus handle_of
      flash_page_program-content page fits =
          check-content _
          ∙ laws.program-content _ a bs (enabled_bus-idle b idle) (enabled_bus-enabled b idle)
              free_now page fits
          ∙ ap (λ (m : Memory). programmed m a bs) (enabled_bus-Later b idle).same_content

      -- On an idle chip that is not protected and has four data lines, with the bytes within one
      -- page, `flash_quad_page_program` programs them at its address.
      pub flash_quad_page_program-content :
          Quad (chip b)
          → a % 256 + length bs ≤ 256
          → a + length bs ≤ capacity
          → (chip (flash_quad_page_program o (handle_of 1) a bs b).1).content
            ≡ programmed (chip b).content a bs
      unfolding flash_quad_page_program set_up enabled_bus handle_of
      flash_quad_page_program-content four page fits =
          check-content _
          ∙ laws.quad_program-content _ a bs (enabled_bus-idle b idle) (enabled_bus-enabled b idle)
              free_now (ap (λ (x : ℕ). bit_and x 2) (enabled_bus-Later b idle).same_status2 ∙ four)
              page fits
          ∙ ap (λ (m : Memory). programmed m a bs) (enabled_bus-Later b idle).same_content
