-- ===== src/Sysctl/Thresholds.antt =====
-- The clock thresholds and clock selects of src/drivers/sysctl.c.
use k210_guard_bootloader.Prelude.{
  ℕ, ◌%◌, ◌^◌, bit_and, ◌≡◌, ◌≢◌, refl, ap, sym, ap₂, subst, ◌∙◌, true, false, Option, none, some,
  inl, inr, arith,
}
use k210_guard_bootloader.Prelude.Tests.{◌==◌, if◌then◌else◌, Bool-cases}
use k210_guard_bootloader.Prelude.Bits.{bit_and_mask}
use k210_guard_bootloader.Prelude.Int.{pos, negsuc}
use k210_guard_bootloader.Sysctl.{
  read_at, write_masked, sysctl_clock_set_threshold, sysctl_clock_get_threshold, threshold_value,
  sysctl_clock_set_clock_select, sysctl_clock_get_clock_select,
}
use k210_guard_bootloader.Sysctl.Layout.{Field, Registers, read, write, same_field}
use k210_guard_bootloader.Sysctl.Ids.{
  Threshold, Select, threshold_aclk, threshold_apb0, threshold_apb1, threshold_apb2,
  threshold_sram0, threshold_sram1, threshold_rom, threshold_spi0, threshold_spi1, threshold_spi2,
  threshold_spi3, threshold_timer0, threshold_timer1, threshold_timer2, clock_select_max,
  clock_select_pll2,
}
use k210_guard_bootloader.Sysctl.Switches.{
  threshold_field, threshold_read, select_field, select_read,
}

-- The width of a threshold in bits; 0 for the devices that this bootloader does not use.
abbrev pub threshold_bits : Threshold → ℕ
threshold_bits threshold_aclk = 2
threshold_bits threshold_apb0 = 3
threshold_bits threshold_apb1 = 3
threshold_bits threshold_apb2 = 3
threshold_bits threshold_sram0 = 4
threshold_bits threshold_sram1 = 4
threshold_bits threshold_rom = 4
threshold_bits threshold_spi0 = 8
threshold_bits threshold_spi1 = 8
threshold_bits threshold_spi2 = 8
threshold_bits threshold_spi3 = 8
threshold_bits threshold_timer0 = 8
threshold_bits threshold_timer1 = 8
threshold_bits threshold_timer2 = 8
threshold_bits _ = 0

-- The width of a select in bits.
abbrev pub select_bits : Select → ℕ
select_bits clock_select_max = 0
select_bits clock_select_pll2 = 2
select_bits _ = 1

module _ (r : Registers) (v : ℕ) where
  -- What is set is read back, up to the width of the threshold.
  pub threshold_value-set :
      (which : Threshold)
      → threshold_value which (sysctl_clock_set_threshold which v r).1
        ≡ v % 2 ^ threshold_bits which
  unfolding read_at write_masked sysctl_clock_set_threshold threshold_value threshold_field
      threshold_read write
  threshold_value-set threshold_aclk = omega (arith, bit_and_mask 2 (v % 256))
  threshold_value-set _ =
      omega (arith, bit_and_mask 3 (v % 256), bit_and_mask 4 (v % 256), bit_and_mask 8 (v % 256))

  pub sysctl_clock_get_clock_select-set :
      (which : Select)
      → sysctl_clock_get_clock_select which (sysctl_clock_set_clock_select which v r).1
        ≡ v % 2 ^ select_bits which
  unfolding read_at write_masked sysctl_clock_set_clock_select sysctl_clock_get_clock_select
      select_field select_read write
  sysctl_clock_get_clock_select-set clock_select_pll2 = omega (arith, bit_and_mask 2 v)
  sysctl_clock_get_clock_select-set _ = omega (arith, bit_and_mask 1 v)

write-other :
    (r : Registers) (f g : Field) (v : ℕ) → same_field g f ≡ false → read (write r f v) g ≡ read r g
unfolding write
write-other r f g v h = rw h refl

-- The threshold that a field belongs to.
abbrev owner : ℕ → ℕ → Threshold
owner r i =
    if r == 8
    then if i == 1
      then threshold_aclk
      else if i == 2
      then threshold_apb0
      else if i == 3
      then threshold_apb1
      else threshold_apb2
    else if r == 14
    then if i == 0 then threshold_sram0 else if i == 1 then threshold_sram1 else threshold_rom
    else if r == 15
    then if i == 0
      then threshold_spi0
      else if i == 1
      then threshold_spi1
      else if i == 2
      then threshold_spi2
      else threshold_spi3
    else if i == 0
    then threshold_timer0
    else if i == 1
    then threshold_timer1
    else threshold_timer2

owner_of : Threshold → Option (Field × ℕ) → Threshold
owner_of w none = w
owner_of w (some (f, mask)) = owner f.register f.index

owner-field : (w : Threshold) → owner_of w (threshold_field w) ≡ w
unfolding owner_of threshold_field
owner-field threshold_aclk = refl
owner-field _ = refl

first : Option (Field × ℕ) → Option Field
first none = none
first (some (f, mask)) = some f

read-field : (w : Threshold) → threshold_read w ≡ first (threshold_field w)
unfolding first threshold_read threshold_field
read-field threshold_aclk = refl
read-field _ = refl

owner_same :
    (f g : Field) → same_field g f ≡ true → owner f.register f.index ≡ owner g.register g.index
owner_same f g h = ap₂ (λ (i j : ℕ). owner i j) same_register same_index
  where
    same_register : f.register ≡ g.register
    same_register = ground (arith, h)

    same_index : f.index ≡ g.index
    same_index = ground (arith, h)

module _ (r : Registers) (v : ℕ) where
  kept :
      (w u : Threshold) (p q : Option (Field × ℕ))
      → owner_of w p ≡ w
      → owner_of u q ≡ u
      → w ≢ u
      → read_at (write_masked r p v).1 (first q) ≡ read_at r (first q)
  unfolding read_at write_masked first owner_of
  kept w u none q e1 e2 ne = refl
  kept w u (some (f, m)) none e1 e2 ne = refl
  kept w u (some (f, m)) (some (g, k)) e1 e2 ne = elim (Bool-cases (same_field g f)) [
    | inl same ↦ absurd (ne (sym e1 ∙ owner_same f g same ∙ e2))
    | inr other ↦ write-other r f g (bit_and v m) other
  ]

module _ (r : Registers) (v : ℕ) where
  result :
      (w : Threshold)
      → (sysctl_clock_set_threshold w v r).0 ≡ (if threshold_bits w == 0 then negsuc 0 else pos 0)
  unfolding sysctl_clock_set_threshold write_masked threshold_field
  result threshold_aclk = refl
  result _ = refl

  -- `sysctl_clock_set_threshold` returns -1 for a device without a threshold in this boot
  -- loader and 0 otherwise; `sysctl_clock_get_threshold` then returns as many of the value's
  -- low bits as the threshold has, and 0, not -1, for a device without one; and of any other
  -- threshold it returns what it did before.
  pub sysctl_clock_set_threshold_lem :
      (which other : Threshold)
      → which ≢ other
      → let (code, t) = sysctl_clock_set_threshold which v r in
        (code ≡ (if threshold_bits which == 0 then negsuc 0 else pos 0))
        × (sysctl_clock_get_threshold which t ≡ pos (v % 2 ^ threshold_bits which))
        × (sysctl_clock_get_threshold other t ≡ sysctl_clock_get_threshold other r)
  unfolding sysctl_clock_set_threshold sysctl_clock_get_threshold threshold_value
  sysctl_clock_set_threshold_lem which other ne = (
    result which,
    ap pos (threshold_value-set r v which),
    ap pos (
        subst
          (λ (q : Option Field). read_at (sysctl_clock_set_threshold which v r).1 q ≡ read_at r q)
          (sym (read-field other))
          (kept r (v % 256) which other (threshold_field which) (threshold_field other)
            (owner-field which) (owner-field other) ne)),
  )
