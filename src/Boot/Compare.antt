-- ===== src/Boot/Compare.antt =====
-- `flash_image_compare` of src/main.c.
use k210_guard_bootloader.Prelude.{ℕ, ◌+◌, ◌≤◌, ◌≡◌, refl, sym, ap, ap₂, subst, ◌∙◌, List, arith}
use k210_guard_bootloader.Prelude.Lists.{length}
use k210_guard_bootloader.Prelude.Words.{u32, word32}
use k210_guard_bootloader.Prelude.Memory.{Memory, span}
use k210_guard_bootloader.Flash.{flash_read_data}
use k210_guard_bootloader.Flash.Ops.{FlashOps, FlashLaws, capacity}
use k210_guard_bootloader.Flash.Read.{
  flash_read_data-content, flash_read_data-IsReady, flash_read_data-bytes,
}
use k210_guard_bootloader.Boot.{CipherOps, Machine, equal_bytes, read_sign, flash_image_compare}
use k210_guard_bootloader.Boot.Image.{image_length}
use k210_guard_bootloader.Boot.Steps.{Reads}

-- Where the comparison looks for the checksum of an image: the sum of the addresses wraps, since
-- the length need not be that of an image.
unfoldable pub sign_address : Memory → ℕ → ℕ
sign_address m a = u32 (a + 5 + image_length m a)

unfoldable pub stored_sign : Memory → ℕ → List ℕ
stored_sign m a = span m (sign_address m a) 32

module _ (f : FlashOps) (laws : FlashLaws f) (c : CipherOps)
    (accelerator : ℕ → List ℕ → List ℕ) where
  open laws use {content, IsReady}

  module _ (s : FlashOps.State f) (a : ℕ) where
    abbrev after_length : List ℕ × FlashOps.State f
    after_length = flash_read_data f s (u32 (a + 1)) 4

    read_sign-content : content (read_sign f c accelerator s a).1 ≡ content s
    unfolding read_sign
    read_sign-content =
        flash_read_data-content f laws after_length.1 _ 32 ∙ flash_read_data-content f laws s _ 4

    read_sign-IsReady : IsReady s → IsReady (read_sign f c accelerator s a).1
    unfolding read_sign
    read_sign-IsReady ready =
        flash_read_data-IsReady f laws after_length.1 _ 32
          (flash_read_data-IsReady f laws s (u32 (a + 1)) 4 ready)

    read_sign-bytes :
        IsReady s
        → a + 5 ≤ capacity
        → sign_address (content s) a + 32 ≤ capacity
        → (read_sign f c accelerator s a).0 ≡ stored_sign (content s) a
    unfolding read_sign sign_address stored_sign image_length
    read_sign-bytes ready room fits =
        ap (λ (n : ℕ). (flash_read_data f after_length.1 (u32 (a + 5 + n)) 32).0) len
        ∙ flash_read_data-bytes f laws after_length.1
            (u32 (a + 5 + word32 (span (content s) (a + 1) 4))) 32
            (flash_read_data-IsReady f laws s (u32 (a + 1)) 4 ready) fits
        ∙ ap (λ (k : Memory). span k (u32 (a + 5 + word32 (span (content s) (a + 1) 4))) 32)
            (flash_read_data-content f laws s (u32 (a + 1)) 4)
      where
        at : u32 (a + 1) ≡ a + 1
        at = omega (arith, room)

        len : word32 after_length.0 ≡ word32 (span (content s) (a + 1) 4)
        len = ap word32 (
            flash_read_data-bytes f laws s (u32 (a + 1)) 4 ready (omega (arith, room))
            ∙ ap (λ (x : ℕ). span (content s) x 4) at)

  module _ (s : Machine f c) (a b : ℕ) where
    pub flash_image_compare-Reads :
        IsReady s.flash
        → length s.sha.context.buffer ≡ 64
        → Reads f laws c s (flash_image_compare f c accelerator s a b).1
    unfolding flash_image_compare
    flash_image_compare-Reads ready buffer = record {
      content =
          read_sign-content (read_sign f c accelerator s.flash a).1 b ∙ read_sign-content s.flash a;
      ready = read_sign-IsReady _ b (read_sign-IsReady s.flash a ready);
      keys = refl;
      buffer = buffer;
    }

    pub flash_image_compare-ram : (flash_image_compare f c accelerator s a b).1.ram ≡ s.ram
    unfolding flash_image_compare
    flash_image_compare-ram = refl

    -- The comparison is that of the two stored checksums.
    pub flash_image_compare_lem :
        IsReady s.flash
        → a + 5 ≤ capacity
        → b + 5 ≤ capacity
        → sign_address (content s.flash) a + 32 ≤ capacity
        → sign_address (content s.flash) b + 32 ≤ capacity
        → (flash_image_compare f c accelerator s a b).0
          ≡ equal_bytes (stored_sign (content s.flash) a) (stored_sign (content s.flash) b)
    unfolding flash_image_compare
    flash_image_compare_lem ready room_a room_b fits_a fits_b =
        ap₂ equal_bytes (read_sign-bytes s.flash a ready room_a fits_a) (
          read_sign-bytes (read_sign f c accelerator s.flash a).1 b
            (read_sign-IsReady s.flash a ready) room_b
            (subst (λ (k : Memory). sign_address k b + 32 ≤ capacity) (sym same) fits_b)
          ∙ ap (λ (k : Memory). stored_sign k b) same)
      where
        same : content (read_sign f c accelerator s.flash a).1 ≡ content s.flash
        same = read_sign-content s.flash a
