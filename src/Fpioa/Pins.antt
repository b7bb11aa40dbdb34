-- ===== src/Fpioa/Pins.antt =====
-- The settings of a pin in src/drivers/fpioa.c: what is set is read back, and no other pin changes.
use k210_guard_bootloader.Prelude.{
  ℕ, zero, suc, ◌<◌, ◌≡◌, ◌≢◌, refl, ap, true, some, List, [], ◌∷◌, arith,
}
use k210_guard_bootloader.Prelude.Tests.{ltb}
use k210_guard_bootloader.Prelude.Lists.{length, get_or, set}
use k210_guard_bootloader.Prelude.Int.{pos}
use k210_guard_bootloader.Fpioa.Entry.{IoConfig}
use k210_guard_bootloader.Fpioa.{
  Fpioa, zero_io, pin, set_pin, Pull, pull_none, pull_down, pull_up, pull_max, with_pull,
  fpioa_set_io_pull, fpioa_get_io_pull, fpioa_set_io_driving, fpioa_get_io_driving,
}

module _ {ℓ} {A : Type ℓ} where
  get_or-set_self : (xs : List A) (i : ℕ) (v d : A) → i < length xs → get_or (set xs i v) i d ≡ v
  get_or-set_self [] i v d h = absurd (omega arith)
  get_or-set_self (x ∷ xs) zero v d h = refl
  get_or-set_self (x ∷ xs) (suc i) v d h = get_or-set_self xs i v d (omega arith)

  get_or-set_ne :
      (xs : List A) (i j : ℕ) (v d : A) → i ≢ j → get_or (set xs i v) j d ≡ get_or xs j d
  get_or-set_ne [] i j v d h = refl
  get_or-set_ne (x ∷ xs) zero zero v d h = absurd (h refl)
  get_or-set_ne (x ∷ xs) zero (suc j) v d h = refl
  get_or-set_ne (x ∷ xs) (suc i) zero v d h = refl
  get_or-set_ne (x ∷ xs) (suc i) (suc j) v d h = get_or-set_ne xs i j v d (λ e. h (ap suc e))

pub inside : (n : ℕ) → n < 48 → ltb n 48 ≡ true
inside n h = ground arith

pub pin-set_self :
    (s : Fpioa) (n : ℕ) (cfg : IoConfig) → length s.io ≡ 48 → n < 48 → pin (set_pin s n cfg) n ≡ cfg
pin-set_self s n cfg size h = get_or-set_self s.io n cfg zero_io (omega (arith, size, h))

pub pin-set_ne : (s : Fpioa) (n i : ℕ) (cfg : IoConfig) → n ≢ i → pin (set_pin s n cfg) i ≡ pin s i
pin-set_ne s n i cfg h = get_or-set_ne s.io n i cfg zero_io h

-- With 48 registers, a pull that `fpioa_set_io_pull` sets is read back by `fpioa_get_io_pull`.
pub fpioa_get_io_pull-set :
    (s : Fpioa) (n : ℕ) (pull : Pull)
    → length s.io ≡ 48
    → n < 48
    → pull ≢ pull_max
    → fpioa_get_io_pull (fpioa_set_io_pull s (pos n) pull).1 (pos n) ≡ some pull
unfolding fpioa_get_io_pull fpioa_set_io_pull with_pull
fpioa_get_io_pull-set s n pull_max size h real = absurd (real refl)
fpioa_get_io_pull-set s n pull_none size h real =
    rw (inside n h, pin-set_self s n (record (pin s n) { pu = 0; pd = 0 }) size h) refl
fpioa_get_io_pull-set s n pull_down size h real =
    rw (inside n h, pin-set_self s n (record (pin s n) { pu = 0; pd = 1 }) size h) refl
fpioa_get_io_pull-set s n pull_up size h real =
    rw (inside n h, pin-set_self s n (record (pin s n) { pu = 1; pd = 0 }) size h) refl

-- With 48 registers, a driving strength below 16 that `fpioa_set_io_driving` sets is read back by
-- `fpioa_get_io_driving`.
pub fpioa_get_io_driving-set :
    (s : Fpioa) (n driving : ℕ)
    → length s.io ≡ 48
    → n < 48
    → driving < 16
    → fpioa_get_io_driving (fpioa_set_io_driving s (pos n) driving).1 (pos n) ≡ pos driving
unfolding fpioa_get_io_driving fpioa_set_io_driving
fpioa_get_io_driving-set s n driving size h strength =
    rw (in_range, inside n h, pin-set_self s n (record (pin s n) { ds = driving }) size h) refl
  where
    in_range : ltb driving 16 ≡ true
    in_range = ground arith
