-- ===== src/Flash/Chip.antt =====
-- A simple flash chip that keeps the promises of its interface, to run the model on.
use k210_guard_bootloader.Prelude.{
  ℕ, zero, suc, ◌-◌, ◌<◌, ◌≡◌, refl, Bool, true, false, List, [], ◌∷◌, ◌&&◌, inl, inr, arith,
}
use k210_guard_bootloader.Prelude.Tests.{ltb, Bool-cases}
use k210_guard_bootloader.Prelude.Lists.{length, get_or}
use k210_guard_bootloader.Prelude.Bits.{bit_and-le}
use k210_guard_bootloader.Prelude.Memory.{Memory, span, store, within, length-span}
use k210_guard_bootloader.Flash.Ops.{FlashOps, FlashLaws, programmed, erased}

abbrev pub Bytes : Memory → Type 0
Bytes m = (x : ℕ) → m x < 256

pub programmed-lt : (m : Memory) (a : ℕ) (bs : List ℕ) → Bytes m → Bytes (programmed m a bs)
unfolding programmed
programmed-lt m a bs h x = elim (Bool-cases (within a (length bs) x)) [
  | inl inside ↦ rw inside (omega (arith, h x, bit_and-le (m x) (get_or bs (x - a) 0)))
  | inr outside ↦ rw outside (h x)
]

pub erased-lt : (m : Memory) (a : ℕ) → Bytes m → Bytes (erased m a)
unfolding erased
erased-lt m a h x = ground (arith, h x)

abbrev pub all_bytes : List ℕ → Bool
all_bytes [] = true
all_bytes (b ∷ bs) = ltb b 256 && all_bytes bs

pub get_or-lt : (bs : List ℕ) (i : ℕ) → all_bytes bs ≡ true → get_or bs i 0 < 256
get_or-lt [] i h = omega arith
get_or-lt (b ∷ bs) zero h = ground (arith, h)
get_or-lt (b ∷ bs) (suc i) h = get_or-lt bs i (ground (arith, h))

pub store-lt :
    (m : Memory) (a : ℕ) (bs : List ℕ) → Bytes m → all_bytes bs ≡ true → Bytes (store m a bs)
unfolding store
store-lt m a bs h all x = elim (Bool-cases (within a (length bs) x)) [
  | inl inside ↦ rw inside (get_or-lt bs (x - a) all)
  | inr outside ↦ rw outside (h x)
]

pub record Chip : Type 0 where
  pub cells : Memory
  pub bytes : (x : ℕ) → cells x < 256
  pub quad : Bool
  pub unlocked : Bool

abbrev pub chip_ops : FlashOps
chip_ops = record {
  State = Chip;
  flash_init = λ spi s. record s { quad = false };
  flash_enable_quad_mode = λ s. record s { quad = true };
  flash_disable_protect = λ s. record s { unlocked = true };
  flash_check_status = λ s. s;
  flash_read = λ s a n. (span s.cells a n, s);
  page_program = λ s a bs. record s {
    cells = programmed s.cells a bs;
    bytes = programmed-lt s.cells a bs s.bytes;
  };
  flash_sector_erase =
      λ s a. record s { cells = erased s.cells a; bytes = erased-lt s.cells a s.bytes };
}

abbrev pub chip_laws : FlashLaws chip_ops
chip_laws = record {
  content = λ s. s.cells;
  IsReady = λ s. s.quad ≡ true;
  IsWritable = λ s. s.unlocked ≡ true;
  content-lt = λ s. s.bytes;
  init-content = λ s. refl;
  init-IsReady = λ s. refl;
  init-IsWritable = λ s h. h;
  disable-content = λ s. refl;
  disable-IsReady = λ s h. h;
  disable-IsWritable = λ s h. refl;
  check-content = λ s. refl;
  check-IsReady = λ s h. h;
  check-IsWritable = λ s h. h;
  read-length = λ s a n. length-span s.cells a n;
  read-bytes = λ s a n h p q. refl;
  read-content = λ s a n. refl;
  read-IsReady = λ s a n h. h;
  read-IsWritable = λ s a n h. h;
  program-content = λ s a bs h p q r t. refl;
  program-IsReady = λ s a bs h. h;
  program-IsWritable = λ s a bs h. h;
  erase-content = λ s a h p q. refl;
  erase-IsReady = λ s a h. h;
  erase-IsWritable = λ s a h. h;
}
