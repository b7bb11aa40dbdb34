-- ===== src/Fpioa/Entry.antt =====
-- `fpioa_assign_t` and `fpioa_io_config_t` of src/drivers/fpioa.c.
use k210_guard_bootloader.Prelude.{ℕ}

-- `fpioa_assign_t`
pub record Assign : Type 0 where
  pub ch_sel : ℕ
  pub ds : ℕ
  pub oe_en : ℕ
  pub oe_inv : ℕ
  pub do_sel : ℕ
  pub do_inv : ℕ
  pub pu : ℕ
  pub pd : ℕ
  pub resv0 : ℕ
  pub sl : ℕ
  pub ie_en : ℕ
  pub ie_inv : ℕ
  pub di_inv : ℕ
  pub st : ℕ
  pub tie_en : ℕ
  pub tie_val : ℕ
  pub resv1 : ℕ
  pub pad_di : ℕ

-- An initializer, with its values in the order in which the table gives them
abbrev pub assign : ℕ → ℕ → ℕ → ℕ → ℕ → ℕ → ℕ → ℕ → ℕ → ℕ → ℕ → ℕ → ℕ → ℕ → ℕ → ℕ → ℕ → ℕ → Assign
assign ch_sel ds oe_en oe_inv do_sel do_inv pu pd resv1 sl ie_en ie_inv di_inv st tie_en tie_val
      resv0 pad_di =
    record {
      ch_sel = ch_sel;
      ds = ds;
      oe_en = oe_en;
      oe_inv = oe_inv;
      do_sel = do_sel;
      do_inv = do_inv;
      pu = pu;
      pd = pd;
      resv0 = resv0;
      sl = sl;
      ie_en = ie_en;
      ie_inv = ie_inv;
      di_inv = di_inv;
      st = st;
      tie_en = tie_en;
      tie_val = tie_val;
      resv1 = resv1;
      pad_di = pad_di;
    }

-- `fpioa_io_config_t`, the register of a pin
pub record IoConfig : Type 0 where
  pub ch_sel : ℕ
  pub ds : ℕ
  pub oe_en : ℕ
  pub oe_inv : ℕ
  pub do_sel : ℕ
  pub do_inv : ℕ
  pub pu : ℕ
  pub pd : ℕ
  pub resv0 : ℕ
  pub sl : ℕ
  pub ie_en : ℕ
  pub ie_inv : ℕ
  pub di_inv : ℕ
  pub st : ℕ
  pub resv1 : ℕ
  pub pad_di : ℕ
