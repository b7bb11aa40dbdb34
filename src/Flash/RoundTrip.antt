-- ===== src/Flash/RoundTrip.antt =====
-- Erase, write and read of src/drivers/flash.c in a row.
use k210_guard_bootloader.Prelude.{ℕ, ◌+◌, ◌%◌, ◌≤◌, ◌<◌, ◌≡◌, refl, ap, ◌∙◌, true, List, arith}
use k210_guard_bootloader.Prelude.Lists.{length, take_all}
use k210_guard_bootloader.Prelude.Memory.{Memory, span, within, span-store_self}
use k210_guard_bootloader.Flash.{flash_read_data, flash_write_data}
use k210_guard_bootloader.Flash.Ops.{FlashOps, FlashLaws, capacity, programmed, erased}
use k210_guard_bootloader.Flash.Content.{programmed-ones}
use k210_guard_bootloader.Flash.Chip.{all_bytes, get_or-lt}
use k210_guard_bootloader.Flash.Read.{flash_read_data-bytes}
use k210_guard_bootloader.Flash.Write.{flash_write_data-content, flash_write_data-IsReady}

module _ (f : FlashOps) where
  open f use {State, flash_init, flash_enable_quad_mode, flash_disable_protect, flash_sector_erase}

  -- The state after the calls that come before a write, the erase of the sector at `a` included.
  abbrev pub prepared : State → ℕ → State
  prepared s a =
      flash_sector_erase (flash_disable_protect (flash_enable_quad_mode (flash_init 1 s))) a

module _ (f : FlashOps) (laws : FlashLaws f) where
  open f use {State}
  open laws use {content, IsReady, IsWritable}

  module _ (s : State) (a : ℕ) (inside : a < capacity) where
    prepared-IsReady : IsReady (prepared f s a)
    prepared-IsReady = laws.erase-IsReady _ a (laws.disable-IsReady _ (laws.init-IsReady s))

    prepared-IsWritable : IsWritable (prepared f s a)
    prepared-IsWritable =
        laws.erase-IsWritable _ a (laws.disable-IsWritable _ (laws.init-IsReady s))

    prepared-content : content (prepared f s a) ≡ erased (content s) a
    prepared-content =
        laws.erase-content _ a (laws.disable-IsReady _ (laws.init-IsReady s))
          (laws.disable-IsWritable _ (laws.init-IsReady s)) inside
        ∙ ap (λ (m : Memory). erased m a) (laws.disable-content _ ∙ laws.init-content s)

    prepared_ones :
        (n x : ℕ) → a % 4096 + n ≤ 4096 → within a n x ≡ true → content (prepared f s a) x ≡ 0xff
    unfolding erased
    prepared_ones n x short h = ap (λ (m : Memory). m x) prepared-content ∙ ground (arith, h)

  -- In a sector just erased, what is written is read back.
  pub erase_write_read :
      (s : State) (a : ℕ) (bs : List ℕ)
      → a % 4096 + length bs ≤ 4096
      → a + length bs ≤ capacity
      → a < capacity
      → all_bytes bs ≡ true
      → (flash_read_data f (flash_write_data f (prepared f s a) a bs (length bs)) a (length bs)).0
        ≡ bs
  erase_write_read s a bs short fits inside bytes =
      flash_read_data-bytes f laws _ a (length bs)
        (flash_write_data-IsReady f laws _ a bs (length bs) (prepared-IsReady s a inside)) fits
      ∙ ap (λ (m : Memory). span m a (length bs))
          (flash_write_data-content f laws (prepared f s a) a bs (length bs)
              (prepared-IsReady s a inside) (prepared-IsWritable s a inside) (omega arith) fits
            ∙ ap (programmed _ a) (take_all (length bs) bs refl)
            ∙ programmed-ones _ a bs (λ x h. prepared_ones s a inside (length bs) x short h)
                (λ i. get_or-lt bs i bytes))
      ∙ span-store_self _ a bs
