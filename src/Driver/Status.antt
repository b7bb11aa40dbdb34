-- ===== src/Driver/Status.antt =====
-- `flash_check_status` of src/drivers/flash.c waits until the chip is idle.
use k210_guard_bootloader.Prelude.{
  ℕ, zero, suc, ◌-◌, ◌≤◌, ◌<◌, bit_and, ◌≡◌, ◌≢◌, refl, sym, ap, subst, ◌∙◌, ◌⊎◌, inl, inr, Bool,
  true, false, arith,
}
use k210_guard_bootloader.Prelude.Tests.{◌==◌, if◌then◌else◌, Bool-cases}
use k210_guard_bootloader.Prelude.Lists.{get_or}
use k210_guard_bootloader.Prelude.Bits.{bit_and_mask}
use k210_guard_bootloader.Driver.{
  flash_ok, flash_busy, Handle, handle_of, flash_read_status_reg1, flash_read_status_reg2, poll,
  flash_check_status,
}
use k210_guard_bootloader.Driver.Bus.{BusOps, BusLaws, ChipState, spi3, status1_of, Later, limit}

pub Later-refl : (c : ChipState) → Later c c
Later-refl c = record {
  same_content = refl;
  same_upper = refl;
  same_status2 = refl;
  less_busy = omega arith;
}

pub Later-trans : (c d e : ChipState) → Later c d → Later d e → Later c e
Later-trans c d e p q = record {
  same_content = q.same_content ∙ p.same_content;
  same_upper = q.same_upper ∙ p.same_upper;
  same_status2 = q.same_status2 ∙ p.same_status2;
  less_busy = omega (arith, p.less_busy, q.less_busy);
}

-- The driver talks to the chip's controller with its offsets, or to another controller.
abbrev pub IsHandle : Handle → Type 0
IsHandle g = (g.spi_handle ≢ spi3) ⊎ (g ≡ handle_of 1)

busy-status1_of : (c : ChipState) → bit_and (status1_of c) 1 ≡ (if c.busy == 0 then 0 else 1)
unfolding status1_of
busy-status1_of c = ground (arith, bit_and_mask 1 (status1_of c))

module _ (o : BusOps) (laws : BusLaws o) where
  open o use {Bus}
  open laws use {chip}

  pub status1_lem : (b : Bus) → (flash_read_status_reg1 o (handle_of 1) b).0 ≡ status1_of (chip b)
  unfolding flash_read_status_reg1 handle_of
  status1_lem b = ap (λ bs. get_or bs 0 0) (laws.status1-value b)

  pub status2_lem : (b : Bus) → (flash_read_status_reg2 o (handle_of 1) b).0 ≡ (chip b).status2
  unfolding flash_read_status_reg2 handle_of
  status2_lem b = ap (λ bs. get_or bs 0 0) (laws.status2-value b)

  status1_at_chip : (b : Bus) → Later (chip b) (chip (flash_read_status_reg1 o (handle_of 1) b).1)
  unfolding flash_read_status_reg1 handle_of
  status1_at_chip = laws.status1-Later

  status1_time :
      (b : Bus) → (chip (flash_read_status_reg1 o (handle_of 1) b).1).busy ≤ (chip b).busy - 1
  unfolding flash_read_status_reg1 handle_of
  status1_time = laws.status1-time

  status2_at_chip : (b : Bus) → Later (chip b) (chip (flash_read_status_reg2 o (handle_of 1) b).1)
  unfolding flash_read_status_reg2 handle_of
  status2_at_chip = laws.status2-Later

  pub status1-Later :
      (g : Handle) (b : Bus) → IsHandle g → Later (chip b) (chip (flash_read_status_reg1 o g b).1)
  unfolding flash_read_status_reg1
  status1-Later g b (inl h) = laws.receive-elsewhere _ _ _ _ _ b h
  status1-Later g b (inr e) =
      subst (λ (k : Handle). Later (chip b) (chip (flash_read_status_reg1 o k b).1)) (sym e)
        (status1_at_chip b)

  pub status2-Later :
      (g : Handle) (b : Bus) → IsHandle g → Later (chip b) (chip (flash_read_status_reg2 o g b).1)
  unfolding flash_read_status_reg2
  status2-Later g b (inl h) = laws.receive-elsewhere _ _ _ _ _ b h
  status2-Later g b (inr e) =
      subst (λ (k : Handle). Later (chip b) (chip (flash_read_status_reg2 o k b).1)) (sym e)
        (status2_at_chip b)

  poll-Later :
      (g : Handle) (left : ℕ) (b : Bus) → IsHandle g → Later (chip b) (chip (poll o g left b).1)
  unfolding poll
  poll-Later g zero b h = Later-refl (chip b)
  poll-Later g (suc left) b h =
      elim (Bool-cases (bit_and (flash_read_status_reg1 o g b).0 0x01 == 0)) [
        | inl idle ↦ rw idle (status1-Later g b h)
        | inr more ↦ rw more (
            Later-trans (chip b) _ _ (status1-Later g b h)
              (poll-Later g left (flash_read_status_reg1 o g b).1 h))
      ]

  pub check-Later :
      (g : Handle) (b : Bus) → IsHandle g → Later (chip b) (chip (flash_check_status o g b).1)
  unfolding flash_check_status
  check-Later g b h = Later-trans (chip b) _ _ (status1-Later g b h) (
      Later-trans _ _ _ (status2-Later g _ h)
        (Later-trans _ _ _ (poll-Later g _ _ h) (status2-Later g _ h)))

  -- The loop ends within its polls.
  poll-idle :
      (left : ℕ) (b : Bus)
      → (chip b).busy < left
      → ((poll o (handle_of 1) left b).0 ≡ false)
        × ((chip (poll o (handle_of 1) left b).1).busy ≡ 0)
  unfolding poll
  poll-idle zero b h = absurd (omega arith)
  poll-idle (suc left) b h = elim (Bool-cases (bit_and (reading b) 0x01 == 0)) [
    | inl idle ↦ rw idle (refl, omega (arith, was_idle idle, status1_time b))
    | inr more ↦ rw more (poll-idle left _ (omega (arith, was_busy more, status1_time b)))
  ]
    where
      reading : Bus → ℕ
      reading b = (flash_read_status_reg1 o (handle_of 1) b).0

      bit : bit_and (reading b) 0x01 ≡ (if (chip b).busy == 0 then 0 else 1)
      bit = ap (λ x. bit_and x 1) (status1_lem b) ∙ busy-status1_of (chip b)

      was_idle : (bit_and (reading b) 0x01 == 0) ≡ true → (chip b).busy ≡ 0
      was_idle e = ground (arith, bit, e)

      was_busy : (bit_and (reading b) 0x01 == 0) ≡ false → 0 < (chip b).busy
      was_busy e = ground (arith, bit, e)

  module _ (b : Bus) (in_time : (chip b).busy < limit) where
    u : Bus
    u = (flash_read_status_reg2 o (handle_of 1) (flash_read_status_reg1 o (handle_of 1) b).1).1

    u_busy : (chip u).busy ≤ (chip b).busy
    unfolding u
    u_busy =
        (Later-trans (chip b) _ _ (status1-Later (handle_of 1) b (inr refl))
          (status2-Later (handle_of 1) _ (inr refl))).less_busy

    -- A chip that ends its work within fewer than 0xFFFFFF reads of its status is idle when
    -- `flash_check_status` returns, and the function returns FLASH_OK.
    pub flash_check_status-idle :
        ((flash_check_status o (handle_of 1) b).0 ≡ flash_ok)
        × ((chip (flash_check_status o (handle_of 1) b).1).busy ≡ 0)
    unfolding flash_check_status u
    flash_check_status-idle = (
      ap (λ (t : Bool). if t then flash_busy else flash_ok) polled.0,
      omega (
        arith,
        polled.1,
        (status2-Later (handle_of 1) (poll o (handle_of 1) 0xffffff u).1 (inr refl)).less_busy,
      ),
    )
      where
        polled :
            ((poll o (handle_of 1) 0xffffff u).0 ≡ false)
            × ((chip (poll o (handle_of 1) 0xffffff u).1).busy ≡ 0)
        polled = poll-idle 0xffffff u (omega (arith, in_time, u_busy))
