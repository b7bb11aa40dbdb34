-- ===== src/Fpioa/Config.antt =====
-- `function_config` of src/drivers/fpioa.c: what each of the 256 functions wants of its pin.
pub mod Low
pub mod High
use k210_guard_bootloader.Prelude.{ℕ, ◌<◌, ◌≡◌, refl, ◌∙◌, Bool, true, List, [], ◌∷◌, ◌++◌}
use k210_guard_bootloader.Prelude.Tests.{◌==◌, ==_iff}
use k210_guard_bootloader.Prelude.Lists.{length, get_or}
use k210_guard_bootloader.Prelude.Bits.{every_below, every_below-at}
use k210_guard_bootloader.Fpioa.Entry.{Assign, assign}
use k210_guard_bootloader.Fpioa.Config.Low.{
  from_0, from_8, from_16, from_24, from_32, from_40, from_48, from_56, from_64, from_72, from_80,
  from_88, from_96, from_104, from_112, from_120,
}
use k210_guard_bootloader.Fpioa.Config.High.{
  from_128, from_136, from_144, from_152, from_160, from_168, from_176, from_184, from_192,
  from_200, from_208, from_216, from_224, from_232, from_240, from_248,
}

unfoldable pub function_config : List Assign
function_config =
    from_0 ++ from_8 ++ from_16 ++ from_24 ++ from_32 ++ from_40 ++ from_48 ++ from_56 ++ from_64
    ++ from_72 ++ from_80 ++ from_88 ++ from_96 ++ from_104 ++ from_112 ++ from_120 ++ from_128
    ++ from_136 ++ from_144 ++ from_152 ++ from_160 ++ from_168 ++ from_176 ++ from_184 ++ from_192
    ++ from_200 ++ from_208 ++ from_216 ++ from_224 ++ from_232 ++ from_240 ++ from_248

-- an entry for an index out of range, which no caller uses
abbrev pub no_assign : Assign
no_assign = assign 0 0 0 0 0 0 0 0 0 0 0 0 0 0 0 0 0 0

table : every_below (λ n. (get_or function_config n no_assign).ch_sel == n) 256 ≡ true
unfolding every_below function_config
table = refl

-- Each of the 256 entries of `function_config` selects the channel of its own index.
pub ch_sel-function_config : (n : ℕ) → n < 256 → (get_or function_config n no_assign).ch_sel ≡ n
ch_sel-function_config n h = (==_iff _ _).0 (every_below-at _ 256 table n h)
