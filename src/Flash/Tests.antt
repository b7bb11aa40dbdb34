-- ===== src/Flash/Tests.antt =====
-- Reads, writes and erases of a simple chip.
use k210_guard_bootloader.Prelude.{ℕ, ◌<◌, ◌≡◌, refl, true, false, List, [], ◌∷◌, arith}
use k210_guard_bootloader.Prelude.Memory.{Memory, store}
use k210_guard_bootloader.Flash.{flash_write_data, sectors_of, do_flash_erase}
use k210_guard_bootloader.Flash.Ops.{programmed}
use k210_guard_bootloader.Flash.Chip.{Chip, chip_ops, chip_laws, store-lt}
use k210_guard_bootloader.Flash.Write.{flash_write_data-content}
use k210_guard_bootloader.Flash.Erase.{Progress, do_flash_erase-Progress}

abbrev hello : List ℕ
hello = 104 ∷ 101 ∷ 108 ∷ 108 ∷ 111 ∷ []

abbrev cells : Memory
cells = store (λ x. 0xff) 250 hello

cells-lt : (x : ℕ) → cells x < 256
cells-lt = store-lt (λ x. 0xff) 250 hello (λ x. omega arith) refl

abbrev chip : Chip
chip = record { cells = cells; bytes = cells-lt; quad = true; unlocked = true }

flash_write_data-content_example :
    (flash_write_data chip_ops chip 252 hello 5).cells ≡ programmed cells 252 hello
flash_write_data-content_example =
    flash_write_data-content chip_ops chip_laws chip 252 hello 5 refl refl (omega arith)
      (omega arith)

do_flash_erase-Progress_example :
    let (status, t, _) = do_flash_erase chip_ops chip 4096 5000 (false ∷ true ∷ []) in
    Progress cells t.cells 4096 2 status
unfolding sectors_of
do_flash_erase-Progress_example =
    do_flash_erase-Progress chip_ops chip_laws chip 4096 5000 (false ∷ true ∷ []) refl (omega arith)
      (omega arith)
