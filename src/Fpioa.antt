-- ===== src/Fpioa.antt =====
-- src/drivers/fpioa.c: which function drives which of the 48 pins, and the pins' settings.
pub mod Entry
pub mod Config
pub mod Select
pub mod Find
pub mod Pins
pub mod Tests
use k210_guard_bootloader.Prelude.{
  ℕ, zero, suc, ◌+◌, ◌-◌, ◌*◌, ◌/◌, ◌%◌, ◌^◌, bit_and, bit_or, Bool, true, false, not, ◌&&◌, ◌||◌,
  Option, none, some, List, [], ◌∷◌,
}
use k210_guard_bootloader.Prelude.Tests.{ltb, ◌==◌, if◌then◌else◌}
use k210_guard_bootloader.Prelude.Lists.{get_or, set}
use k210_guard_bootloader.Prelude.Int.{ℤ, pos, negsuc}
use k210_guard_bootloader.Fpioa.Entry.{Assign, IoConfig}
use k210_guard_bootloader.Fpioa.Config.{function_config, no_assign}

-- The registers: a pin's configuration for each pin, and the words of tie bits.
pub record Fpioa : Type 0 where
  pub io : List IoConfig
  pub tie_en : List ℕ
  pub tie_val : List ℕ

abbrev pub zero_io : IoConfig
zero_io = record {
  ch_sel = 0;
  ds = 0;
  oe_en = 0;
  oe_inv = 0;
  do_sel = 0;
  do_inv = 0;
  pu = 0;
  pd = 0;
  resv0 = 0;
  sl = 0;
  ie_en = 0;
  ie_inv = 0;
  di_inv = 0;
  st = 0;
  resv1 = 0;
  pad_di = 0;
}

-- The test `number < 0 || number >= FPIOA_NUM_IO`: what is returned then, and else.
abbrev pub on_pin {ℓ} : {A : Type ℓ} → ℤ → A → (ℕ → A) → A
on_pin (pos n) bad good = if ltb n 48 then good n else bad
on_pin (negsuc n) bad good = bad

abbrev pub pin : Fpioa → ℕ → IoConfig
pin s n = get_or s.io n zero_io

abbrev pub set_pin : Fpioa → ℕ → IoConfig → Fpioa
set_pin s n cfg = record s { io = set s.io n cfg }

-- `cfg` is not NULL.
unfoldable pub fpioa_get_io : Fpioa → ℤ → Option IoConfig
fpioa_get_io s number = on_pin number none (λ n. some (pin s n))

unfoldable pub fpioa_set_io : Fpioa → ℤ → IoConfig → ℤ × Fpioa
fpioa_set_io s number cfg = on_pin number (negsuc 0, s) (λ n. (pos 0, set_pin s n cfg))

-- `fpioa_pull_t`, with its count of settings
pub data Pull : Type 0 where
  pull_none pull_down pull_up pull_max : Pull

unfoldable pub with_pull : IoConfig → Pull → IoConfig
with_pull cfg pull_none = record cfg { pu = 0; pd = 0 }
with_pull cfg pull_down = record cfg { pu = 0; pd = 1 }
with_pull cfg pull_up = record cfg { pu = 1; pd = 0 }
with_pull cfg pull_max = cfg

unfoldable pub fpioa_set_io_pull : Fpioa → ℤ → Pull → ℤ × Fpioa
fpioa_set_io_pull s number pull_max = (negsuc 0, s)
fpioa_set_io_pull s number pull =
    on_pin number (negsuc 0, s) (λ n. (pos 0, set_pin s n (with_pull (pin s n) pull)))

-- `none` is -1.
unfoldable pub fpioa_get_io_pull : Fpioa → ℤ → Option Pull
fpioa_get_io_pull s number = on_pin number none (λ n. some (
    if (pin s n).pu == 0 && (pin s n).pd == 1
    then pull_down
    else if (pin s n).pu == 1 && (pin s n).pd == 0
    then pull_up
    else pull_none))

unfoldable pub fpioa_set_io_driving : Fpioa → ℤ → ℕ → ℤ × Fpioa
fpioa_set_io_driving s number driving =
    if not (ltb driving 16)
    then (negsuc 0, s)
    else on_pin number (negsuc 0, s) (λ n. (pos 0, set_pin s n (record (pin s n) { ds = driving })))

unfoldable pub fpioa_get_io_driving : Fpioa → ℤ → ℤ
fpioa_get_io_driving s number = on_pin number (negsuc 0) (λ n. pos (pin s n).ds)

-- The register that `fpioa_set_function_raw` writes: a compound literal, the rest of it zero.
unfoldable pub io_of : Assign → IoConfig
io_of a = record {
  ch_sel = a.ch_sel;
  ds = a.ds;
  oe_en = a.oe_en;
  oe_inv = a.oe_inv;
  do_sel = a.do_sel;
  do_inv = a.do_inv;
  pu = a.pu;
  pd = a.pd;
  resv0 = 0;
  sl = a.sl;
  ie_en = a.ie_en;
  ie_inv = a.ie_inv;
  di_inv = a.di_inv;
  st = a.st;
  resv1 = 0;
  pad_di = 0;
}

unfoldable pub fpioa_set_function_raw : Fpioa → ℤ → ℕ → ℤ × Fpioa
fpioa_set_function_raw s number function =
    if not (ltb function 256)
    then (negsuc 0, s)
    else on_pin number (negsuc 0, s)
        (λ n. (pos 0, set_pin s n (io_of (get_or function_config function no_assign))))

abbrev pub func_resv0 : ℕ
func_resv0 = 120

-- "Compare all IO": the loop of `fpioa_set_function`, with the indices that are left.
unfoldable pub release_loop : ℕ → Fpioa → ℕ → ℕ → ℕ → Fpioa
release_loop zero s index number function = s
release_loop (suc left) s index number function =
    release_loop left
      (if (pin s index).ch_sel == function && not (index == number)
        then (fpioa_set_function_raw s (pos index) func_resv0).1
        else s)
      (index + 1) number function

unfoldable pub fpioa_set_function : Fpioa → ℤ → ℕ → ℤ × Fpioa
fpioa_set_function s number function =
    if not (ltb function 256)
    then (negsuc 0, s)
    else on_pin number (negsuc 0, s)
        (λ n.
          if function == func_resv0
          then (pos 0, (fpioa_set_function_raw s number func_resv0).1)
          else (pos 0, (fpioa_set_function_raw (release_loop 48 s 0 n function) number function).1))

-- The loop of `fpioa_get_io_by_function`, with the indices that are left.
unfoldable pub find_loop : ℕ → Fpioa → ℕ → ℕ → ℤ
find_loop zero s index function = negsuc 0
find_loop (suc left) s index function =
    if (pin s index).ch_sel == function then pos index else find_loop left s (index + 1) function

unfoldable pub fpioa_get_io_by_function : Fpioa → ℕ → ℤ
fpioa_get_io_by_function s function = find_loop 48 s 0 function
