-- ===== src/Driver/Quad.antt =====
-- `flash_enable_quad_mode` of src/drivers/flash.c: the chip uses four data lines afterwards.
use k210_guard_bootloader.Prelude.{
  ℕ, ◌/◌, ◌%◌, ◌<◌, bit_and, bit_or, ◌≡◌, ◌≢◌, refl, sym, ap, subst, ◌∙◌, inl, inr, false, arith,
}
use k210_guard_bootloader.Prelude.Tests.{◌==◌, if◌then◌else◌, Bool-cases}
use k210_guard_bootloader.Driver.{
  Handle, Driver, handle_of, flash_read_status_reg1, flash_read_status_reg2, flash_write_status_reg,
  flash_check_status, flash_enable_quad_mode,
}
use k210_guard_bootloader.Driver.Bus.{BusOps, BusLaws, ChipState, status1_of, Later, Quad, spi3}
use k210_guard_bootloader.Driver.Status.{
  Later-trans, status1_lem, status2_lem, status1-Later, status2-Later, check-Later,
  flash_check_status-idle,
}
use k210_guard_bootloader.Driver.Registers.{
  Written, byte_or, quad_or, complement_or, quad_set, write-elsewhere,
  flash_write_status_reg-Written,
}

-- Four data lines, an idle chip, and the protection as before.
pub record Enabled (c d : ChipState) : Type 0 where
  pub same_content : d.content ≡ c.content
  pub same_upper : d.upper ≡ c.upper
  pub same_complement : d.status2 / 64 % 2 ≡ c.status2 / 64 % 2
  pub four : Quad d
  pub idle : d.busy ≡ 0

module _ (o : BusOps) (laws : BusLaws o) where
  open o use {Bus}
  open laws use {chip}

  -- `flash_enable_quad_mode`, on the chip's controller.
  module _ (b : Bus) (idle : (chip b).busy ≡ 0) where
    abbrev g : Handle
    g = handle_of 1

    abbrev t : Bus
    t = (flash_read_status_reg2 o g b).1

    abbrev u : Bus
    u = (flash_read_status_reg1 o g t).1

    t-Later : Later (chip b) (chip t)
    t-Later = status2-Later o laws g b (inr refl)

    u-Later : Later (chip b) (chip u)
    u-Later = Later-trans _ _ _ t-Later (status1-Later o laws g t (inr refl))

    reg1 : ℕ
    reg1 = (flash_read_status_reg1 o g t).0

    reg2 : ℕ
    reg2 = (flash_read_status_reg2 o g b).0

    reg1-eq : reg1 ≡ status1_of (chip t)
    unfolding reg1
    reg1-eq = status1_lem o laws t

    reg2-eq : reg2 ≡ (chip b).status2
    unfolding reg2
    reg2-eq = status2_lem o laws b

    reg2-lt : reg2 < 256
    reg2-lt = omega (arith, reg2-eq, laws.status2-lt b)

    upper-reg1 : reg1 / 4 ≡ (chip b).upper
    unfolding status1_of
    upper-reg1 = ground (arith, reg1-eq, t-Later.same_upper)

    reg1-lt : reg1 < 256
    unfolding status1_of
    reg1-lt = ground (arith, reg1-eq, laws.upper-lt t)

    written :
        Written reg1
          (bit_or reg2 0x02)
          (chip u)
          (chip (flash_write_status_reg o g reg1 (bit_or reg2 0x02) u))
    written =
        flash_write_status_reg-Written o laws reg1 (bit_or reg2 0x02) u
          (omega (arith, idle, u-Later.less_busy)) reg1-lt (byte_or reg2 reg2-lt)

    -- What `flash_check_status` finds at the end of `flash_enable_quad_mode`.
    abbrev v : Bus
    v = flash_write_status_reg o g reg1 (bit_or reg2 0x02) u

    newly : Enabled (chip b) (chip (flash_check_status o g v).1)
    newly = record {
      same_content = waited.same_content ∙ written.same_content ∙ u-Later.same_content;
      same_upper = waited.same_upper ∙ written.new_upper ∙ upper-reg1;
      same_complement =
          ap (λ (x : ℕ). x / 64 % 2) (waited.same_status2 ∙ written.new_status2)
          ∙ complement_or reg2 reg2-lt
          ∙ ap (λ (x : ℕ). x / 64 % 2) reg2-eq;
      four =
          ap (λ x. bit_and x 2) (waited.same_status2 ∙ written.new_status2) ∙ quad_or reg2 reg2-lt;
      idle = (flash_check_status-idle o laws v written.in_time).1;
    }
      where
        waited : Later (chip v) (chip (flash_check_status o g v).1)
        waited = check-Later o laws g v (inr refl)

    already :
        (bit_and reg2 0x02 == 0) ≡ false → Enabled (chip b) (chip (flash_check_status o g t).1)
    already set = record {
      same_content = waited.same_content;
      same_upper = waited.same_upper;
      same_complement = ap (λ (x : ℕ). x / 64 % 2) waited.same_status2;
      four = ap (λ x. bit_and x 2) (waited.same_status2 ∙ sym reg2-eq) ∙ quad_set reg2 reg2-lt set;
      idle = omega (arith, idle, waited.less_busy);
    }
      where
        waited : Later (chip b) (chip (flash_check_status o g t).1)
        waited = Later-trans _ _ _ t-Later (check-Later o laws g t (inr refl))

    quad-Enabled :
        Enabled (chip b) (chip (flash_check_status o g (if bit_and reg2 0x02 == 0 then v else t)).1)
    quad-Enabled = elim (Bool-cases (bit_and reg2 0x02 == 0)) [
      | inl clear ↦ rw clear newly
      | inr set ↦ rw set (already set)
    ]

  -- `flash_enable_quad_mode` on an idle chip leaves it idle with four data lines, its cells and its
  -- protection as they were.
  pub flash_enable_quad_mode-Enabled :
      (d : Driver o)
      → (chip d.bus).busy ≡ 0
      → d.handle ≡ handle_of 1
      → Enabled (chip d.bus) (chip (flash_enable_quad_mode o d).1.bus)
  unfolding flash_enable_quad_mode reg1 reg2
  flash_enable_quad_mode-Enabled d idle e =
      subst
        (λ (g : Handle).
          Enabled (chip d.bus) (chip (flash_enable_quad_mode o (record d { handle = g })).1.bus))
        (sym e) (quad-Enabled d.bus idle)

  pub quad-elsewhere :
      (d : Driver o)
      → d.handle.spi_handle ≢ spi3
      → Later (chip d.bus) (chip (flash_enable_quad_mode o d).1.bus)
  unfolding flash_enable_quad_mode
  quad-elsewhere d h =
      elim (Bool-cases (bit_and (flash_read_status_reg2 o d.handle d.bus).0 0x02 == 0)) [
        | inl clear ↦ rw clear (
            Later-trans _ _ _ read (
              Later-trans _ _ _ (status1-Later o laws d.handle _ (inl h)) (
                Later-trans _ _ _ (write-elsewhere o laws d.handle _ _ _ h)
                  (check-Later o laws d.handle _ (inl h)))))
        | inr set ↦ rw set (Later-trans _ _ _ read (check-Later o laws d.handle _ (inl h)))
      ]
    where
      read : Later (chip d.bus) (chip (flash_read_status_reg2 o d.handle d.bus).1)
      read = status2-Later o laws d.handle d.bus (inl h)
