-- ===== src/Boot/Main.antt =====
-- `main` of src/main.c: what is booted, and when it exits.
use k210_guard_bootloader.Prelude.{ℕ, ◌+◌, ◌≤◌, bit_and, ◌≡◌, ap, ◌∙◌, inl, inr, some, List}
use k210_guard_bootloader.Prelude.Tests.{Bool-cases}
use k210_guard_bootloader.Prelude.Lists.{length}
use k210_guard_bootloader.Prelude.Memory.{Memory, span, store}
use k210_guard_bootloader.Flash.Ops.{FlashOps, FlashLaws, capacity}
use k210_guard_bootloader.Boot.{
  CipherOps, go_boot, exit_abnormal, outcome_of, Layout, Machine, equal_bytes, flash_image_backup,
  choose_image, main,
}
use k210_guard_bootloader.Boot.Image.{image_length, image_codes, IsImage}
use k210_guard_bootloader.Boot.Steps.{Reads}
use k210_guard_bootloader.Boot.Decipher.{CipherLaws}
use k210_guard_bootloader.Boot.Check.{equal_bytes_refl}
use k210_guard_bootloader.Boot.Compare.{sign_address, stored_sign}
use k210_guard_bootloader.Boot.Repaired.{repaired-store, repaired-ram}
use k210_guard_bootloader.Boot.Choose.{
  IsLayout, outcome_of-failed, choose-same, choose-app, choose-none,
}
use k210_guard_bootloader.Boot.Settled
use k210_guard_bootloader.Boot.Run.{Checks, IsStuck}

module _ (f : FlashOps) (laws : FlashLaws f) (c : CipherOps) (accelerator : ℕ → List ℕ → List ℕ)
    (cipher : CipherLaws c) (l : Layout) (is_layout : IsLayout l) (s : Machine f c)
    (buffer : length s.sha.context.buffer ≡ 64)
    (returns : ¬ IsStuck f laws c accelerator cipher l is_layout s buffer) where
  open laws use {content, IsReady}
  open l use {app, bak, next_size}

  abbrev m : Memory
  m = content s.flash

  abbrev u : Machine f c
  u = Settled.u f laws c accelerator cipher l is_layout s buffer returns

  abbrev both : Checks f laws c accelerator cipher l is_layout s buffer
  both = Settled.both f laws c accelerator cipher l is_layout s buffer returns

  abbrev after : Machine f c
  after = Settled.after f laws c accelerator cipher l is_layout s buffer returns

  reads : Reads f laws c s u
  reads = Settled.reads f laws c accelerator cipher l is_layout s buffer returns

  run :
      main f c accelerator l s
      ≡ some (choose_image f c accelerator l both.bak_check.result both.app_check.result after)
  run = Settled.run f laws c accelerator cipher l is_layout s buffer returns

  -- In a layout of two whole partitions, where no image is deciphered for ever: if neither
  -- partition holds a valid image, `main` exits, and the flash's content stays as it is.
  pub main-none_valid :
      ¬ IsImage accelerator next_size m app
      → ¬ IsImage accelerator next_size m bak
      → (u : Machine f c) × (main f c accelerator l s ≡ some (exit_abnormal, u))
        × (content u.flash ≡ m)
  main-none_valid no_app no_bak = (
    u,
    run
        ∙ ap some (
            choose-none f laws c accelerator l after _ _ (λ e. no_app (both.app_check.sound e))
              (λ e. no_bak (both.bak_check.sound e))),
    reads.content,
  )

  -- In a layout of two whole partitions, where no image is deciphered for ever: a valid APP
  -- that is not encrypted is booted, whatever BAK holds and whatever keys are pressed. RAM
  -- starts with the codes of APP, and the flash changes in the partition of BAK at most.
  pub main-app :
      IsImage accelerator next_size m app
      → bit_and (m app) 1 ≡ 0
      → (u : Machine f c) × (main f c accelerator l s ≡ some (go_boot, u))
        × (span u.ram 0 (image_length m app) ≡ image_codes m app)
        × (content u.flash ≡ store m bak (span (content u.flash) bak next_size))
  main-app image plain =
      elim (Bool-cases (Settled.same f laws c accelerator cipher l is_layout s buffer returns)) [
        | inl e ↦ (
          u,
          run
              ∙ ap some (
                  choose-same f laws c accelerator l after _ _ e
                  ∙ ap (λ o. (o, u))
                      (ap outcome_of (both.app_check.complete image)
                        ∙ (Settled.pass_boots f laws c accelerator cipher l is_layout s buffer
                            returns))),
          (Settled.same_ram f laws c accelerator cipher l is_layout s buffer returns) image plain,
          (Settled.kept f laws c accelerator cipher l is_layout s buffer returns),
        )
        | inr e ↦ (
          flash_image_backup f c accelerator u app bak,
          run
              ∙ ap some
                  (choose-app f laws c accelerator l after _ _ e (both.app_check.complete image)),
          repaired-ram f laws c accelerator u m app bak next_size reads.content reads.ready
              is_layout.app_part is_layout.bak_part image,
          repaired-store f laws c accelerator u m app bak next_size reads.content reads.ready
              is_layout.app_part is_layout.bak_part image,
        )
      ]

  -- In a layout of two whole partitions, where no image is deciphered for ever: if APP is not
  -- valid, but the same checksum stands at the two places in the chip where
  -- `flash_image_compare` looks for APP's and BAK's, `main` exits whatever BAK holds, and the
  -- flash's content stays as it is.
  pub main-bak_refused :
      ¬ IsImage accelerator next_size m app
      → sign_address m app + 32 ≤ capacity
      → sign_address m bak + 32 ≤ capacity
      → stored_sign m app ≡ stored_sign m bak
      → (u : Machine f c) × (main f c accelerator l s ≡ some (exit_abnormal, u))
        × (content u.flash ≡ m)
  main-bak_refused no_app app_in bak_in equal = (
    u,
    run
        ∙ ap some (
            choose-same f laws c accelerator l after _ _ (
              (Settled.same-eq f laws c accelerator cipher l is_layout s buffer returns) app_in
                bak_in
              ∙ ap (λ bs. equal_bytes bs (stored_sign m bak)) equal
              ∙ equal_bytes_refl (stored_sign m bak))
            ∙ ap (λ o. (o, u)) (outcome_of-failed _ (λ e. no_app (both.app_check.sound e)))),
    reads.content,
  )
