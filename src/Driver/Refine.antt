-- ===== src/Driver/Refine.antt =====
-- The functions of src/drivers/flash.c keep the promises that the transfers above them rely on
-- (Flash/Ops.antt).
use k210_guard_bootloader.Prelude.{
  ℕ, ◌+◌, ◌/◌, ◌%◌, ◌≤◌, ◌<◌, bit_and, ◌≡◌, refl, sym, ap, subst, ◌∙◌, true, List, [], arith,
}
use k210_guard_bootloader.Prelude.Lists.{length}
use k210_guard_bootloader.Prelude.Memory.{span}
use k210_guard_bootloader.Flash.{flash_read_data, flash_write_data}
use k210_guard_bootloader.Flash.Chip.{all_bytes}
use k210_guard_bootloader.Flash.RoundTrip.{prepared, erase_write_read}
use k210_guard_bootloader.Flash.Ops.{FlashLaws, capacity, programmed, erased}
use k210_guard_bootloader.Driver.{
  Handle, Driver, Pointer, quad, flash_quad_single, handle_of, flash_sector_erase, flash_read,
  flash_init, flash_enable_quad_mode, page_program,
}
use k210_guard_bootloader.Driver.Bus.{BusOps, BusLaws, ChipState, Quad, Unprotected}
use k210_guard_bootloader.Driver.Status.{check-Later}
use k210_guard_bootloader.Driver.Commands.{
  Finished, Later-Unprotected, flash_sector_erase-Finished, flash_sector_erase-content,
  page_program-Finished, flash_quad_page_program-content,
}
use k210_guard_bootloader.Driver.Modes.{
  init-Later, flash_read-length, flash_read-Later, flash_read-bytes,
}
use k210_guard_bootloader.Driver.Sound.{
  IsSound, init-IsSound, disable_lem, disable_ready, driver_ops,
}
use k210_guard_bootloader.Driver.Quad.{Enabled, flash_enable_quad_mode-Enabled}

Finished-Unprotected : (c d : ChipState) → Finished c d → Unprotected c → Unprotected d
Finished-Unprotected c d p (h, k) =
    (ap (λ (x : ℕ). x % 8) p.same_upper ∙ h, ap (λ (x : ℕ). x / 64 % 2) p.same_status2 ∙ k)

Enabled-Unprotected : (c d : ChipState) → Enabled c d → Unprotected c → Unprotected d
Enabled-Unprotected c d p (h, k) = (ap (λ (x : ℕ). x % 8) p.same_upper ∙ h, p.same_complement ∙ k)

module _ (o : BusOps) (laws : BusLaws o) where
  open laws use {chip}

  -- In quad mode on the chip's controller.
  abbrev pub IsReady : Driver o → Type 0
  IsReady d = (d.handle ≡ handle_of 1) × (d.page_program_fun ≡ quad) × Quad (chip d.bus)

  quad-IsReady :
      (d : Driver o)
      → IsSound o laws d
      → d.handle ≡ handle_of 1
      → IsReady (flash_enable_quad_mode o d).1
  unfolding flash_enable_quad_mode
  quad-IsReady d (idle, h) e = (e, refl, (flash_enable_quad_mode-Enabled o laws d idle e).four)

  init_handle : (d : Driver o) → (flash_init o 1 d).handle ≡ handle_of 1
  unfolding flash_init
  init_handle d = refl

  init_quad :
      (d : Driver o)
      → IsSound o laws d
      → Enabled
          (chip (flash_init o 1 d).bus)
          (chip (flash_enable_quad_mode o (flash_init o 1 d)).1.bus)
  init_quad d sound =
      flash_enable_quad_mode-Enabled o laws (flash_init o 1 d) (init-IsSound o laws 1 d sound).0
        (init_handle d)

  read_bytes :
      (g : Handle) (b : o.Bus) (a n : ℕ)
      → g ≡ handle_of 1
      → (chip b).busy ≡ 0
      → Quad (chip b)
      → a + n ≤ capacity
      → (flash_read o g a n flash_quad_single b).0 ≡ span (chip b).content a n
  read_bytes g b a n e idle four fits =
      subst (λ (k : Handle). (flash_read o k a n flash_quad_single b).0 ≡ span (chip b).content a n)
        (sym e) (flash_read-bytes o laws a n b idle four fits)

  program_content :
      (p : Pointer) (g : Handle) (b : o.Bus) (a : ℕ) (bs : List ℕ)
      → p ≡ quad
      → g ≡ handle_of 1
      → (chip b).busy ≡ 0
      → Quad (chip b)
      → Unprotected (chip b)
      → a % 256 + length bs ≤ 256
      → a + length bs ≤ capacity
      → (chip (page_program o p g a bs b).1).content ≡ programmed (chip b).content a bs
  unfolding page_program
  program_content p g b a bs at_quad e idle four free page fits =
      subst
        (λ (q : Pointer).
          (chip (page_program o q g a bs b).1).content ≡ programmed (chip b).content a bs)
        (sym at_quad)
        (subst
          (λ (k : Handle).
            (chip (page_program o quad k a bs b).1).content ≡ programmed (chip b).content a bs)
          (sym e) (flash_quad_page_program-content o laws b a bs idle free four page fits))

  erase_content :
      (g : Handle) (b : o.Bus) (a : ℕ)
      → g ≡ handle_of 1
      → (chip b).busy ≡ 0
      → Unprotected (chip b)
      → a < capacity
      → (chip (flash_sector_erase o g a b).1).content ≡ erased (chip b).content a
  erase_content g b a e idle free fits =
      subst
        (λ (k : Handle). (chip (flash_sector_erase o k a b).1).content ≡ erased (chip b).content a)
        (sym e) (flash_sector_erase-content o laws b a [] idle free fits)

  keep_quad : (s t : ℕ) → t ≡ s → bit_and s 2 ≡ 2 → bit_and t 2 ≡ 2
  keep_quad s t e h = ap (λ x. bit_and x 2) e ∙ h

  -- The driver, on a chip that keeps to its data sheet, refines the interface of the transfers.
  pub driver_laws : FlashLaws (driver_ops o laws)
  driver_laws = record {
    content = λ (d, sound). (chip d.bus).content;
    IsReady = λ (d, sound). IsReady d;
    IsWritable = λ (d, sound). Unprotected (chip d.bus);
    content-lt = λ (d, sound). laws.content-lt d.bus;
    init-content =
        λ (d, sound). (init_quad d sound).same_content ∙ (init-Later o laws 1 d).same_content;
    init-IsReady = λ (d, sound).
        quad-IsReady (flash_init o 1 d) (init-IsSound o laws 1 d sound) (init_handle d);
    init-IsWritable = λ (d, sound) free.
        Enabled-Unprotected _ _ (init_quad d sound)
          (Later-Unprotected _ _ (init-Later o laws 1 d) free);
    disable-content = λ (d, (idle, h)). (disable_lem o laws d.bus idle d.handle h).0;
    disable-IsReady = λ (d, (idle, h)) (e, fun, four).
        (e, fun, (disable_ready o laws d.bus idle d.handle e).1 four);
    disable-IsWritable =
        λ (d, (idle, h)) (e, fun, four). (disable_ready o laws d.bus idle d.handle e).0;
    check-content = λ (d, (idle, h)). (check-Later o laws d.handle d.bus h).same_content;
    check-IsReady = λ (d, (idle, h)) (e, fun, four).
        (e, fun, keep_quad _ _ (check-Later o laws d.handle d.bus h).same_status2 four);
    check-IsWritable =
        λ (d, (idle, h)) free. Later-Unprotected _ _ (check-Later o laws d.handle d.bus h) free;
    read-length = λ (d, sound) a n. flash_read-length o laws d.handle a n d.bus;
    read-bytes = λ (d, (idle, h)) a n (e, fun, four) short fits.
        read_bytes d.handle d.bus a n e idle four fits;
    read-content =
        λ (d, (idle, h)) a n. (flash_read-Later o laws d.handle a n d.bus h).same_content;
    read-IsReady = λ (d, (idle, h)) a n (e, fun, four).
        (e, fun, keep_quad _ _ (flash_read-Later o laws d.handle a n d.bus h).same_status2 four);
    read-IsWritable = λ (d, (idle, h)) a n free.
        Later-Unprotected _ _ (flash_read-Later o laws d.handle a n d.bus h) free;
    program-content = λ (d, (idle, h)) a bs (e, fun, four) free short page fits.
        program_content d.page_program_fun d.handle d.bus a bs fun e idle four free page fits;
    program-IsReady = λ (d, (idle, h)) a bs (e, fun, four). (
      e,
      fun,
      keep_quad _ _
          (page_program-Finished o laws d.bus a bs idle d.page_program_fun d.handle h).same_status2
          four,
    );
    program-IsWritable = λ (d, (idle, h)) a bs free.
        Finished-Unprotected _ _
          (page_program-Finished o laws d.bus a bs idle d.page_program_fun d.handle h) free;
    erase-content = λ (d, (idle, h)) a (e, fun, four) free fits.
        erase_content d.handle d.bus a e idle free fits;
    erase-IsReady = λ (d, (idle, h)) a (e, fun, four). (
      e,
      fun,
      keep_quad _ _ (flash_sector_erase-Finished o laws d.bus a [] idle d.handle h).same_status2
          four,
    );
    erase-IsWritable = λ (d, (idle, h)) a free.
        Finished-Unprotected _ _ (flash_sector_erase-Finished o laws d.bus a [] idle d.handle h)
          free;
  }

  -- From any state between two calls of the driver, on a chip that keeps to its data sheet:
  -- after `flash_init`, `flash_enable_quad_mode`, `flash_disable_protect` and
  -- `flash_sector_erase`, bytes that `flash_write_data` writes to one sector of the chip are
  -- what `flash_read_data` returns.
  pub erased_written_read :
      (d : Driver o) (sound : IsSound o laws d) (a : ℕ) (bs : List ℕ)
      → a % 4096 + length bs ≤ 4096
      → a < capacity
      → all_bytes bs ≡ true
      → let f = driver_ops o laws in
        let t = flash_write_data f (prepared f (d, sound) a) a bs (length bs) in
        (flash_read_data f t a (length bs)).0 ≡ bs
  erased_written_read d sound a bs short inside bytes =
      erase_write_read (driver_ops o laws) driver_laws (d, sound) a bs short (omega arith) inside
        bytes
