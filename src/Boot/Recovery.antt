-- ===== src/Boot/Recovery.antt =====
-- `main` of src/main.c where one image is copied over the other.
use k210_guard_bootloader.Prelude.{ℕ, ◌+◌, ◌≤◌, bit_and, ◌≡◌, ◌≢◌, ap, ◌∙◌, inl, inr, some, List}
use k210_guard_bootloader.Prelude.Lists.{length}
use k210_guard_bootloader.Prelude.Memory.{Memory, span, store}
use k210_guard_bootloader.Flash.Ops.{FlashOps, FlashLaws, capacity}
use k210_guard_bootloader.Flash.Erase.{NoKey}
use k210_guard_bootloader.Boot.{
  CipherOps, go_boot, Layout, Machine, flash_image_backup, choose_image, main,
}
use k210_guard_bootloader.Boot.Image.{image_length, image_codes, IsImage}
use k210_guard_bootloader.Boot.Steps.{Reads}
use k210_guard_bootloader.Boot.Decipher.{CipherLaws}
use k210_guard_bootloader.Boot.Compare.{sign_address, stored_sign}
use k210_guard_bootloader.Boot.Repaired.{
  repaired-store, repaired-other, repaired-span, repaired-IsImage, repaired-ram,
}
use k210_guard_bootloader.Boot.Choose.{IsLayout, choose-app, choose-bak}
use k210_guard_bootloader.Boot.Settled
use k210_guard_bootloader.Boot.Run.{Checks, IsStuck}

module _ (f : FlashOps) (laws : FlashLaws f) (c : CipherOps) (accelerator : ℕ → List ℕ → List ℕ)
    (cipher : CipherLaws c) (l : Layout) (is_layout : IsLayout l) (s : Machine f c)
    (buffer : length s.sha.context.buffer ≡ 64)
    (returns : ¬ IsStuck f laws c accelerator cipher l is_layout s buffer) where
  open laws use {content, IsReady}
  open l use {app, bak, next_size}

  abbrev m : Memory
  m = content s.flash

  abbrev u : Machine f c
  u = Settled.u f laws c accelerator cipher l is_layout s buffer returns

  abbrev both : Checks f laws c accelerator cipher l is_layout s buffer
  both = Settled.both f laws c accelerator cipher l is_layout s buffer returns

  abbrev after : Machine f c
  after = Settled.after f laws c accelerator cipher l is_layout s buffer returns

  reads : Reads f laws c s u
  reads = Settled.reads f laws c accelerator cipher l is_layout s buffer returns

  run :
      main f c accelerator l s
      ≡ some (choose_image f c accelerator l both.bak_check.result both.app_check.result after)
  run = Settled.run f laws c accelerator cipher l is_layout s buffer returns

  module _ (app_in : sign_address m app + 32 ≤ capacity)
      (bak_in : sign_address m bak + 32 ≤ capacity)
      (differ : stored_sign m app ≢ stored_sign m bak) where
    run_bak :
        ¬ IsImage accelerator next_size m app
        → IsImage accelerator next_size m bak
        → main f c accelerator l s ≡ some (go_boot, flash_image_backup f c accelerator u bak app)
    run_bak no_app image =
        run
        ∙ ap some (
            choose-bak f laws c accelerator l after _ _
              ((Settled.differ-eq f laws c accelerator cipher l is_layout s buffer returns) app_in
                bak_in differ)
              (λ e. no_app (both.app_check.sound e)) (both.bak_check.complete image))

    run_app :
        IsImage accelerator next_size m app
        → main f c accelerator l s ≡ some (go_boot, flash_image_backup f c accelerator u app bak)
    run_app image =
        run
        ∙ ap some (
            choose-app f laws c accelerator l after _ _
              ((Settled.differ-eq f laws c accelerator cipher l is_layout s buffer returns) app_in
                bak_in differ)
              (both.app_check.complete image))

    -- In a layout of two whole partitions, where no image is deciphered for ever: if APP is
    -- not valid and BAK is, and different checksums stand at the two places in the chip where
    -- `flash_image_compare` looks for theirs, `main` boots, whatever keys are pressed. RAM
    -- starts with the codes of BAK as flash holds them, and the flash changes in the
    -- partition of APP at most.
    pub main-bak :
        ¬ IsImage accelerator next_size m app
        → IsImage accelerator next_size m bak
        → (u : Machine f c) × (main f c accelerator l s ≡ some (go_boot, u))
          × (span u.ram 0 (image_length m bak) ≡ image_codes m bak)
          × (content u.flash ≡ store m app (span (content u.flash) app next_size))
    main-bak no_app image = (
      flash_image_backup f c accelerator u bak app,
      run_bak no_app image,
      repaired-ram f laws c accelerator u m bak app next_size reads.content reads.ready
          is_layout.bak_part is_layout.app_part image,
      repaired-store f laws c accelerator u m bak app next_size reads.content reads.ready
          is_layout.bak_part is_layout.app_part image,
    )

    -- In a layout of two whole partitions, where no image is deciphered for ever: if APP is
    -- not valid and BAK is, different checksums stand at the two places in the chip where
    -- `flash_image_compare` looks for theirs, and no key is pressed, `main` boots, both
    -- partitions then hold a valid image, and that of APP is a copy of BAK's.
    pub main-bak_repairs :
        ¬ IsImage accelerator next_size m app
        → IsImage accelerator next_size m bak
        → NoKey s.keys
        → (u : Machine f c) × (main f c accelerator l s ≡ some (go_boot, u))
          × IsImage accelerator next_size (content u.flash) app
          × IsImage accelerator next_size (content u.flash) bak
          × (span (content u.flash) app (image_length m bak + 37)
              ≡ span m bak (image_length m bak + 37))
    main-bak_repairs no_app image quiet = (
      flash_image_backup f c accelerator u bak app,
      run_bak no_app image,
      repaired-IsImage f laws c accelerator u m bak app next_size reads.content reads.ready
          is_layout.bak_part is_layout.app_part image
          ((Settled.quiet_keys f laws c accelerator cipher l is_layout s buffer returns) quiet),
      repaired-other f laws c accelerator u m bak app next_size reads.content reads.ready
          is_layout.bak_part is_layout.app_part image bak (inr is_layout.apart) image,
      repaired-span f laws c accelerator u m bak app next_size reads.content reads.ready
          is_layout.bak_part is_layout.app_part image
          ((Settled.quiet_keys f laws c accelerator cipher l is_layout s buffer returns) quiet),
    )

    -- In a layout of two whole partitions, where no image is deciphered for ever: if APP is
    -- valid, different checksums stand at the two places in the chip where
    -- `flash_image_compare` looks for APP's and BAK's, and no key is pressed, `main` boots,
    -- both partitions then hold a valid image, and that of BAK is a copy of APP's.
    pub main-app_repairs :
        IsImage accelerator next_size m app
        → NoKey s.keys
        → (u : Machine f c) × (main f c accelerator l s ≡ some (go_boot, u))
          × IsImage accelerator next_size (content u.flash) app
          × IsImage accelerator next_size (content u.flash) bak
          × (span (content u.flash) bak (image_length m app + 37)
              ≡ span m app (image_length m app + 37))
    main-app_repairs image quiet = (
      flash_image_backup f c accelerator u app bak,
      run_app image,
      repaired-other f laws c accelerator u m app bak next_size reads.content reads.ready
          is_layout.app_part is_layout.bak_part image app (inl is_layout.apart) image,
      repaired-IsImage f laws c accelerator u m app bak next_size reads.content reads.ready
          is_layout.app_part is_layout.bak_part image
          ((Settled.quiet_keys f laws c accelerator cipher l is_layout s buffer returns) quiet),
      repaired-span f laws c accelerator u m app bak next_size reads.content reads.ready
          is_layout.app_part is_layout.bak_part image
          ((Settled.quiet_keys f laws c accelerator cipher l is_layout s buffer returns) quiet),
    )

    -- In a layout of two whole partitions, where no image is deciphered for ever: if APP is
    -- valid and encrypted, and different checksums stand at the two places in the chip where
    -- `flash_image_compare` looks for APP's and BAK's, `main` boots, and RAM starts with the
    -- codes of APP as flash holds them, which are not deciphered.
    pub main-app_encrypted :
        IsImage accelerator next_size m app
        → bit_and (m app) 1 ≡ 1
        → (u : Machine f c) × (main f c accelerator l s ≡ some (go_boot, u))
          × (span u.ram 0 (image_length m app) ≡ image_codes m app)
    main-app_encrypted image encrypted = (
      flash_image_backup f c accelerator u app bak,
      run_app image,
      repaired-ram f laws c accelerator u m app bak next_size reads.content reads.ready
          is_layout.app_part is_layout.bak_part image,
    )
