-- ===== src/Driver/Sound.antt =====
-- The driver of src/drivers/flash.c between two calls, and what the transfers call of it.
use k210_guard_bootloader.Prelude.{ℕ, ◌≡◌, sym, subst, inl, inr, [], arith}
use k210_guard_bootloader.Flash.Ops.{FlashOps}
use k210_guard_bootloader.Driver.{
  Handle, Driver, flash_quad_single, handle_of, flash_check_status, flash_disable_protect,
  flash_sector_erase, flash_read, flash_init, flash_enable_quad_mode, page_program,
}
use k210_guard_bootloader.Driver.Bus.{BusOps, BusLaws, Quad, Unprotected}
use k210_guard_bootloader.Driver.Status.{IsHandle, check-Later}
use k210_guard_bootloader.Driver.Commands.{flash_sector_erase-Finished, page_program-Finished}
use k210_guard_bootloader.Driver.Registers.{
  disabled, disable-content, disable-Unprotected, disable-Quad, disable-idle, disable-elsewhere,
}
use k210_guard_bootloader.Driver.Modes.{handle_of-IsHandle, init-Later, flash_read-Later}
use k210_guard_bootloader.Driver.Quad.{flash_enable_quad_mode-Enabled, quad-elsewhere}

module _ (o : BusOps) (laws : BusLaws o) where
  open laws use {chip}

  -- Between two calls: the chip is idle, and the statics are those of one `flash_init` or none.
  abbrev pub IsSound : Driver o → Type 0
  IsSound d = ((chip d.bus).busy ≡ 0) × IsHandle d.handle

  pub init-IsSound : (i : ℕ) (d : Driver o) → IsSound d → IsSound (flash_init o i d)
  unfolding flash_init
  init-IsSound i d (idle, h) =
      (omega (arith, idle, (init-Later o laws i d).less_busy), handle_of-IsHandle i)

  quad_idle : (d : Driver o) → IsSound d → (chip (flash_enable_quad_mode o d).1.bus).busy ≡ 0
  quad_idle d (idle, inl h) = omega (arith, idle, (quad-elsewhere o laws d h).less_busy)
  quad_idle d (idle, inr e) = (flash_enable_quad_mode-Enabled o laws d idle e).idle

  pub quad-IsSound : (d : Driver o) → IsSound d → IsSound (flash_enable_quad_mode o d).1
  unfolding flash_enable_quad_mode
  quad-IsSound d (idle, h) = (quad_idle d (idle, h), h)

  module _ (b : o.Bus) (idle : (chip b).busy ≡ 0) where
    pub disable_lem :
        (g : Handle)
        → IsHandle g
        → ((chip (flash_disable_protect o g b).1).content ≡ (chip b).content)
          × ((chip (flash_disable_protect o g b).1).busy ≡ 0)
    unfolding disabled
    disable_lem g (inl h) = (
      (disable-elsewhere o laws g b h).same_content,
      omega (arith, idle, (disable-elsewhere o laws g b h).less_busy),
    )
    disable_lem g (inr e) =
        subst
          (λ (k : Handle).
            ((chip (flash_disable_protect o k b).1).content ≡ (chip b).content)
            × ((chip (flash_disable_protect o k b).1).busy ≡ 0))
          (sym e) (disable-content o laws b idle, disable-idle o laws b idle)

    pub disable_ready :
        (g : Handle)
        → g ≡ handle_of 1
        → Unprotected (chip (flash_disable_protect o g b).1)
          × (Quad (chip b) → Quad (chip (flash_disable_protect o g b).1))
    unfolding disabled
    disable_ready g e =
        subst
          (λ (k : Handle).
            Unprotected (chip (flash_disable_protect o k b).1)
            × (Quad (chip b) → Quad (chip (flash_disable_protect o k b).1)))
          (sym e) (disable-Unprotected o laws b idle, disable-Quad o laws b idle)

  -- What the transfers call, on sound states.
  abbrev pub driver_ops : FlashOps
  driver_ops = record {
    State = (d : Driver o) × IsSound d;
    flash_init = λ i (d, sound). (flash_init o i d, init-IsSound i d sound);
    flash_enable_quad_mode = λ (d, sound). ((flash_enable_quad_mode o d).1, quad-IsSound d sound);
    flash_disable_protect = λ (d, (idle, h)). (
      record d { bus = (flash_disable_protect o d.handle d.bus).1 },
      ((disable_lem d.bus idle d.handle h).1, h),
    );
    flash_check_status = λ (d, (idle, h)). (
      record d { bus = (flash_check_status o d.handle d.bus).1 },
      (omega (arith, idle, (check-Later o laws d.handle d.bus h).less_busy), h),
    );
    flash_read = λ (d, (idle, h)) a n. (
      (flash_read o d.handle a n flash_quad_single d.bus).0,
      (
        record d { bus = (flash_read o d.handle a n flash_quad_single d.bus).1 },
        (omega (arith, idle, (flash_read-Later o laws d.handle a n d.bus h).less_busy), h),
      ),
    );
    page_program = λ (d, (idle, h)) a bs. (
      record d { bus = (page_program o d.page_program_fun d.handle a bs d.bus).1 },
      ((page_program-Finished o laws d.bus a bs idle d.page_program_fun d.handle h).idle, h),
    );
    flash_sector_erase = λ (d, (idle, h)) a. (
      record d { bus = (flash_sector_erase o d.handle a d.bus).1 },
      ((flash_sector_erase-Finished o laws d.bus a [] idle d.handle h).idle, h),
    );
  }
