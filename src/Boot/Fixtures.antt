-- ===== src/Boot/Fixtures.antt =====
-- Two small images for src/main.c in a simple chip, with a simple cipher and accelerator.
use k210_guard_bootloader.Prelude.{
  ℕ, ◌+◌, ◌-◌, ◌≤◌, ◌<◌, bit_and, ◌≡◌, ◌≢◌, refl, ap, inl, inr, true, false, List, [], ◌∷◌, ◌++◌,
  arith,
}
use k210_guard_bootloader.Prelude.Lists.{get_or, take, replicate}
use k210_guard_bootloader.Prelude.Words.{bytes_of32, word32}
use k210_guard_bootloader.Prelude.Memory.{Memory, span, store, length-span}
use k210_guard_bootloader.Flash.Ops.{capacity}
use k210_guard_bootloader.Flash.Chip.{chip_ops, chip_laws, store-lt}
use k210_guard_bootloader.Sha256.{words_of, read_hash, bytes_to_pad}
use k210_guard_bootloader.Boot.{CipherOps, stage1, Machine, flash_image_backup}
use k210_guard_bootloader.Boot.Image.{
  image_length, image_codes, image_sign, image_message, checksum, IsImage,
}
use k210_guard_bootloader.Boot.Decipher.{CipherLaws}
use k210_guard_bootloader.Boot.Copy.{CanCopy}
use k210_guard_bootloader.Boot.Choose.{IsLayout}
use k210_guard_bootloader.Boot.Compare.{sign_address, stored_sign}
use k210_guard_bootloader.Boot.Run.{IsStuck}

abbrev pub cipher : CipherOps
cipher = record {
  State = ℕ;
  otp_key_output_enable = λ s. s;
  otp_key_output_disable = λ s. s;
  aes_reset = λ s. 0;
  aes_init = λ s key iv n. n;
  aes_process = λ s bs. (span (λ i. 255 - get_or bs i 0) 0 16, s);
}

pub cipher_laws : CipherLaws cipher
cipher_laws = record { block_length = λ s bs. length-span _ 0 16 }

-- the first words of the message in place of a hash
abbrev pub accelerator : ℕ → List ℕ → List ℕ
accelerator n words = take 8 words

pub stage1-IsLayout : IsLayout stage1
stage1-IsLayout = record {
  app_part = record { room = omega arith; in_chip = omega arith; aligned = refl; whole = refl };
  bak_part = record { room = omega arith; in_chip = omega arith; aligned = refl; whole = refl };
  apart = omega arith;
}

abbrev pub blank : Memory
blank x = 0xff

-- an image with the codes 1, 2, 3, and what `accelerator` makes of it
abbrev pub app_bytes : List ℕ
app_bytes =
    0
    ∷ 3
    ∷ 0
    ∷ 0
    ∷ 0
    ∷ 1
    ∷ 2
    ∷ 3
    ∷ (replicate 20 0 ++ 0x80 ∷ 0 ∷ 0 ∷ 0 ∷ 0 ∷ 1 ∷ 2 ∷ 3 ∷ 0 ∷ 3 ∷ 0 ∷ 0 ∷ [])

-- one with the codes 4, 5
abbrev pub bak_bytes : List ℕ
bak_bytes = 0 ∷ 2 ∷ 0 ∷ 0 ∷ 0 ∷ 4 ∷ 5 ∷ (replicate 24 0 ++ 0 ∷ 4 ∷ 5 ∷ 0x80 ∷ 0 ∷ 2 ∷ 0 ∷ 0 ∷ [])

abbrev pub two_images : Memory
two_images = store (store blank 65536 app_bytes) 131072 bak_bytes

pub app_length : image_length two_images 65536 ≡ 3
unfolding image_length store word32 span
app_length = refl

pub app-IsImage : IsImage accelerator 65536 two_images 65536
unfolding image_length image_sign image_message checksum store bytes_of32 word32 span read_hash
    words_of image_codes bytes_to_pad
app-IsImage = record { fits = omega (arith, app_length); signed = refl }

pub bak_length : image_length two_images 131072 ≡ 2
unfolding image_length store word32 span
bak_length = refl

pub bak-IsImage : IsImage accelerator 65536 two_images 131072
unfolding image_length image_sign image_message checksum store bytes_of32 word32 span read_hash
    words_of image_codes bytes_to_pad
bak-IsImage = record { fits = omega (arith, bak_length); signed = refl }

-- a machine whose chip holds some bytes
abbrev pub machine : (m : Memory) → ((x : ℕ) → m x < 256) → Machine chip_ops cipher
machine m bytes = record {
  flash = record { cells = m; bytes = bytes; quad = false; unlocked = false };
  cipher = 0;
  sha = record {
    engine = record {
      fed = [];
      sha_data_num = 0;
      sha_status = 0;
      double_sha = 0;
      sha_input_ctrl = 0;
    };
    context = record { total_length = 0; hash = []; buffer_length = 0; buffer = replicate 64 0 };
  };
  ram = λ x. 0;
  keys = [];
}

pub blank_bytes : (x : ℕ) → blank x < 256
blank_bytes x = omega arith

pub two_images_bytes : (x : ℕ) → two_images x < 256
two_images_bytes =
    store-lt _ 131072 bak_bytes (store-lt blank 65536 app_bytes blank_bytes refl) refl

abbrev pub two_machine : Machine chip_ops cipher
two_machine = machine two_images two_images_bytes

pub two_plain : (bit_and (two_images 65536) 1 ≡ 0) × (bit_and (two_images 131072) 1 ≡ 0)
unfolding store
two_plain = (refl, refl)

pub two_not_stuck :
    ¬ IsStuck chip_ops chip_laws cipher accelerator cipher_laws stage1 stage1-IsLayout two_machine
      refl
two_not_stuck (inl e) = absurd (omega (arith, e.encrypted, two_plain.1))
two_not_stuck (inr e) = absurd (omega (arith, e.encrypted, two_plain.0))

pub two_app_in : sign_address two_images 65536 + 32 ≤ capacity
unfolding sign_address
two_app_in = omega (arith, app_length)

pub two_bak_in : sign_address two_images 131072 + 32 ≤ capacity
unfolding sign_address
two_bak_in = omega (arith, bak_length)

pub two_differ : stored_sign two_images 65536 ≢ stored_sign two_images 131072
unfolding stored_sign sign_address image_length store word32 span
two_differ e = absurd (omega (arith, ap (λ bs. get_or bs 20 0) e))

-- a machine whose driver is in quad mode
abbrev pub quad_machine : Machine chip_ops cipher
quad_machine = record two_machine { flash = record two_machine.flash { quad = true } }

pub quad_can_copy : CanCopy chip_ops chip_laws cipher accelerator quad_machine 65536 131072 65536
quad_can_copy = record {
  ready = refl;
  fits = app-IsImage.fits;
  from_in = omega arith;
  to_in = omega arith;
  aligned = refl;
  whole = refl;
}

abbrev pub quad_after : Machine chip_ops cipher
quad_after = flash_image_backup chip_ops cipher accelerator quad_machine 65536 131072
