-- ===== src/Boot/Image.antt =====
-- What an image in flash is, for src/main.c: one byte of flags, four bytes of length, the codes,
-- and 32 bytes of checksum over all of these.
use k210_guard_bootloader.Prelude.{ℕ, ◌+◌, ◌/◌, ◌≤◌, ◌≡◌, List, ◌∷◌, ◌++◌}
use k210_guard_bootloader.Prelude.Lists.{length}
use k210_guard_bootloader.Prelude.Words.{bytes_of32, word32}
use k210_guard_bootloader.Prelude.Memory.{Memory, span}
use k210_guard_bootloader.Sha256.{words_of, read_hash}
use k210_guard_bootloader.Sha256.Padding.{padded}

module _ (m : Memory) (a : ℕ) where
  unfoldable pub image_length : ℕ
  image_length = word32 (span m (a + 1) 4)

  unfoldable pub image_codes : List ℕ
  image_codes = span m (a + 5) image_length

  unfoldable pub image_sign : List ℕ
  image_sign = span m (a + 5 + image_length) 32

  -- what the checksum is over
  unfoldable pub image_message : List ℕ
  image_message = m a ∷ (bytes_of32 image_length ++ image_codes)

-- The checksum that the driver and the accelerator make of a message.
unfoldable pub checksum : (ℕ → List ℕ → List ℕ) → List ℕ → List ℕ
checksum accelerator m = read_hash (accelerator ((length m + 64) / 64) (words_of (padded m)))

-- A partition of `size` bytes at `a` holds an image whose checksum is right.
pub record IsImage (accelerator : ℕ → List ℕ → List ℕ) (size : ℕ) (m : Memory) (a : ℕ)
    : Type 0 where
  pub fits : image_length m a + 37 ≤ size
  pub signed : image_sign m a ≡ checksum accelerator (image_message m a)
