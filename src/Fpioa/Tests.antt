-- ===== src/Fpioa/Tests.antt =====
-- A reset FPIOA of src/drivers/fpioa.c, and a few calls on it.
use k210_guard_bootloader.Prelude.{◌≡◌, refl, false, arith}
use k210_guard_bootloader.Prelude.Tests.{◌==◌}
use k210_guard_bootloader.Prelude.Lists.{replicate}
use k210_guard_bootloader.Prelude.Int.{pos}
use k210_guard_bootloader.Fpioa.{Fpioa, zero_io, pin, fpioa_set_function, fpioa_get_io_by_function}
use k210_guard_bootloader.Fpioa.Config.{function_config, no_assign, ch_sel-function_config}
use k210_guard_bootloader.Prelude.Lists.{get_or}
use k210_guard_bootloader.Fpioa.Find.{fpioa_get_io_by_function-set}

-- every pin has the function 0
abbrev reset : Fpioa
reset = record { io = replicate 48 zero_io; tie_en = replicate 8 0; tie_val = replicate 8 0 }

ch_sel-function_config_example : (get_or function_config 20 no_assign).ch_sel ≡ 20
ch_sel-function_config_example = ch_sel-function_config 20 (omega arith)

-- pin 5 gets the function that all pins have

fpioa_get_io_by_function-set_example :
    let t = (fpioa_set_function reset (pos 5) 0).1 in
    (fpioa_get_io_by_function t 0 ≡ pos 5) × (((pin t 6).ch_sel == 0) ≡ false)
fpioa_get_io_by_function-set_example =
    fpioa_get_io_by_function-set reset 5 0 refl (omega arith) (omega arith)
      (λ e. absurd (omega (arith, e))) 6 (omega arith)
