-- ===== src/Boot/Tests.antt =====
-- Boots of src/main.c on small images, with a simple chip, cipher and accelerator.
use k210_guard_bootloader.Prelude.{◌+◌, ◌≡◌, refl, ◌↔◌, true, false, none, some, arith}
use k210_guard_bootloader.Prelude.Memory.{span, store}
use k210_guard_bootloader.Flash.Chip.{chip_ops, chip_laws}
use k210_guard_bootloader.Boot.{
  go_boot, exit_abnormal, stage1, Machine, main, flash_image_check, decipher_loop,
}
use k210_guard_bootloader.Boot.Image.{image_length, image_codes, IsImage}
use k210_guard_bootloader.Boot.Decipher.{plain_text, decipher_loop-plain_text}
use k210_guard_bootloader.Boot.Check.{Verdict, flash_image_check-Verdict}
use k210_guard_bootloader.Boot.Repair.{flash_image_backup-outside, flash_image_backup-copies}
use k210_guard_bootloader.Boot.Cores.{
  checking, spinning, jumping, waiting, leaving, clint_ipi_send, clint_ipi_clear, clint_ipi_enable,
  wfi, wake, clint_ipi_unregister, set_flag, see_flag, Steps, stay, next, start, cores, core0-jumps,
}
use k210_guard_bootloader.Boot.Wake.{cores-jump, CanLeave}
use k210_guard_bootloader.Boot.Run.{IsStuck, main-none}
use k210_guard_bootloader.Boot.Main.{main-none_valid, main-app, main-bak_refused}
use k210_guard_bootloader.Boot.Recovery.{
  main-bak, main-bak_repairs, main-app_repairs, main-app_encrypted,
}
use k210_guard_bootloader.Boot.Fixtures.{
  cipher, cipher_laws, accelerator, stage1-IsLayout, blank, two_images, app-IsImage, two_machine,
  two_plain, two_not_stuck, two_app_in, two_bak_in, two_differ, quad_machine, quad_can_copy,
  quad_after,
}
use k210_guard_bootloader.Boot.Faults.{
  blank_machine, blank_app_bad, blank_bak_bad, blank_not_stuck, bak_only, bak_machine, only_app_bad,
  only_bak-IsImage, bak_not_stuck, only_app_in, only_bak_in, only_differ, broken, broken_machine,
  broken_app_bad, broken_not_stuck, broken_app_in, broken_bak_in, broken_same, encrypted,
  cipher_machine, cipher_app-IsImage, cipher_flags, cipher_not_stuck, cipher_app_in, cipher_bak_in,
  cipher_differ,
}

main-app_example :
    (u : Machine chip_ops cipher) × (main chip_ops cipher accelerator stage1 two_machine
      ≡ some (go_boot, u))
    × (span u.ram 0 (image_length two_images 65536) ≡ image_codes two_images 65536)
    × (u.flash.cells ≡ store two_images 131072 (span u.flash.cells 131072 65536))
main-app_example =
    main-app chip_ops chip_laws cipher accelerator cipher_laws stage1 stage1-IsLayout two_machine
      refl two_not_stuck app-IsImage two_plain.0

main-app_repairs_example :
    (u : Machine chip_ops cipher) × (main chip_ops cipher accelerator stage1 two_machine
      ≡ some (go_boot, u))
    × IsImage accelerator 65536 u.flash.cells 65536
    × IsImage accelerator 65536 u.flash.cells 131072
    × (span u.flash.cells 131072 (image_length two_images 65536 + 37)
        ≡ span two_images 65536 (image_length two_images 65536 + 37))
main-app_repairs_example =
    main-app_repairs chip_ops chip_laws cipher accelerator cipher_laws stage1 stage1-IsLayout
      two_machine refl two_not_stuck two_app_in two_bak_in two_differ app-IsImage tt

main-none_valid_example :
    (u : Machine chip_ops cipher) × (main chip_ops cipher accelerator stage1 blank_machine
      ≡ some (exit_abnormal, u))
    × (u.flash.cells ≡ blank)
main-none_valid_example =
    main-none_valid chip_ops chip_laws cipher accelerator cipher_laws stage1 stage1-IsLayout
      blank_machine refl blank_not_stuck blank_app_bad blank_bak_bad

main-bak_example :
    (u : Machine chip_ops cipher) × (main chip_ops cipher accelerator stage1 bak_machine
      ≡ some (go_boot, u))
    × (span u.ram 0 (image_length bak_only 131072) ≡ image_codes bak_only 131072)
    × (u.flash.cells ≡ store bak_only 65536 (span u.flash.cells 65536 65536))
main-bak_example =
    main-bak chip_ops chip_laws cipher accelerator cipher_laws stage1 stage1-IsLayout bak_machine
      refl bak_not_stuck only_app_in only_bak_in only_differ only_app_bad only_bak-IsImage

main-bak_repairs_example :
    (u : Machine chip_ops cipher) × (main chip_ops cipher accelerator stage1 bak_machine
      ≡ some (go_boot, u))
    × IsImage accelerator 65536 u.flash.cells 65536
    × IsImage accelerator 65536 u.flash.cells 131072
    × (span u.flash.cells 65536 (image_length bak_only 131072 + 37)
        ≡ span bak_only 131072 (image_length bak_only 131072 + 37))
main-bak_repairs_example =
    main-bak_repairs chip_ops chip_laws cipher accelerator cipher_laws stage1 stage1-IsLayout
      bak_machine refl bak_not_stuck only_app_in only_bak_in only_differ only_app_bad
      only_bak-IsImage tt

main-bak_refused_example :
    (u : Machine chip_ops cipher) × (main chip_ops cipher accelerator stage1 broken_machine
      ≡ some (exit_abnormal, u))
    × (u.flash.cells ≡ broken)
main-bak_refused_example =
    main-bak_refused chip_ops chip_laws cipher accelerator cipher_laws stage1 stage1-IsLayout
      broken_machine refl broken_not_stuck broken_app_bad broken_app_in broken_bak_in broken_same

main-app_encrypted_example :
    (u : Machine chip_ops cipher) × (main chip_ops cipher accelerator stage1 cipher_machine
      ≡ some (go_boot, u))
    × (span u.ram 0 (image_length encrypted 65536) ≡ image_codes encrypted 65536)
main-app_encrypted_example =
    main-app_encrypted chip_ops chip_laws cipher accelerator cipher_laws stage1 stage1-IsLayout
      cipher_machine refl cipher_not_stuck cipher_app_in cipher_bak_in cipher_differ
      cipher_app-IsImage cipher_flags.0

main-none_example :
    (main chip_ops cipher accelerator stage1 cipher_machine ≡ none)
    ↔ IsStuck chip_ops chip_laws cipher accelerator cipher_laws stage1 stage1-IsLayout
        cipher_machine refl
main-none_example =
    main-none chip_ops chip_laws cipher accelerator cipher_laws stage1 stage1-IsLayout
      cipher_machine refl

flash_image_backup-outside_example : quad_after.flash.cells 0 ≡ two_images 0
flash_image_backup-outside_example =
    flash_image_backup-outside chip_ops chip_laws cipher accelerator quad_machine 65536 131072 65536
      quad_can_copy 0 refl

flash_image_backup-copies_example :
    span quad_after.flash.cells 131072 (image_length two_images 65536 + 37)
    ≡ span two_images 65536 (image_length two_images 65536 + 37)
flash_image_backup-copies_example =
    flash_image_backup-copies chip_ops chip_laws cipher accelerator quad_machine 65536 131072 65536
      quad_can_copy tt

flash_image_check-Verdict_example :
    Verdict chip_ops chip_laws cipher accelerator cipher_machine 65536 65536
      (flash_image_check chip_ops cipher accelerator cipher_machine 65536 65536)
flash_image_check-Verdict_example =
    flash_image_check-Verdict chip_ops chip_laws cipher accelerator cipher_machine 65536 65536 refl
      (omega arith) (omega arith) cipher_laws

decipher_loop-plain_text_example :
    decipher_loop chip_ops cipher 2 0 encrypted 65541 16
    ≡ some (
      (plain_text cipher 1 0 encrypted 65541).1,
      store encrypted 65541 (plain_text cipher 1 0 encrypted 65541).0,
    )
decipher_loop-plain_text_example =
    decipher_loop-plain_text chip_ops cipher cipher_laws 1 2 0 encrypted 65541 16 refl (omega arith)
      (omega arith)

-- core 1 asleep, and both cores up to the jump
asleep : Steps start (cores checking waiting false false)
asleep =
    next _ _ _ (clint_ipi_clear checking false false) (
      next _ _ _ (clint_ipi_enable checking false false) (next _ _ _ (wfi checking false) (stay _)))

both_jumped : Steps start (cores jumping leaving false true)
both_jumped = next _ _ _ (clint_ipi_clear checking false false) (
    next _ _ _ (clint_ipi_enable checking false false) (
      next _ _ _ (wfi checking false) (
        next _ _ _ (clint_ipi_send waiting false false) (
          next _ _ _ (wake spinning false) (
            next _ _ _ (clint_ipi_unregister spinning false false) (
              next _ _ _ (set_flag spinning false false)
                (next _ _ _ (see_flag leaving false) (stay _))))))))

core0-jumps_example : leaving ≡ leaving
core0-jumps_example = core0-jumps (cores jumping leaving false true) both_jumped refl

cores-jump_example : CanLeave (cores spinning waiting true false) ↔ (waiting ≡ waiting)
cores-jump_example =
    cores-jump waiting false false (cores spinning waiting true false) asleep
      (clint_ipi_send waiting false false) refl
