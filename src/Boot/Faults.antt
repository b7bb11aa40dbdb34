-- ===== src/Boot/Faults.antt =====
-- Chips for src/main.c that are blank, hold BAK alone, a broken APP, or an encrypted one.
use k210_guard_bootloader.Prelude.{
  ℕ, ◌+◌, ◌≤◌, bit_and, ◌≡◌, ◌≢◌, refl, ap, inl, inr, List, [], ◌∷◌, ◌++◌, arith,
}
use k210_guard_bootloader.Prelude.Lists.{get_or, replicate}
use k210_guard_bootloader.Prelude.Words.{bytes_of32, word32}
use k210_guard_bootloader.Prelude.Memory.{Memory, span, store}
use k210_guard_bootloader.Flash.Ops.{capacity}
use k210_guard_bootloader.Flash.Chip.{chip_ops, chip_laws, store-lt}
use k210_guard_bootloader.Sha256.{words_of, read_hash, bytes_to_pad}
use k210_guard_bootloader.Boot.{stage1, Machine}
use k210_guard_bootloader.Boot.Image.{
  image_length, image_codes, image_sign, image_message, checksum, IsImage,
}
use k210_guard_bootloader.Boot.Compare.{sign_address, stored_sign}
use k210_guard_bootloader.Boot.Run.{IsStuck}
use k210_guard_bootloader.Boot.Fixtures.{
  cipher, cipher_laws, accelerator, stage1-IsLayout, blank, bak_bytes, machine, blank_bytes,
}

-- nothing but an erased chip
abbrev pub blank_machine : Machine chip_ops cipher
blank_machine = machine blank blank_bytes

pub blank_app_length : image_length blank 65536 ≡ 4294967295
unfolding image_length store word32 span
blank_app_length = refl

pub blank_bak_length : image_length blank 131072 ≡ 4294967295
unfolding image_length store word32 span
blank_bak_length = refl

pub blank_app_bad : ¬ IsImage accelerator 65536 blank 65536
blank_app_bad e = absurd (omega (arith, e.fits, blank_app_length))

pub blank_bak_bad : ¬ IsImage accelerator 65536 blank 131072
blank_bak_bad e = absurd (omega (arith, e.fits, blank_bak_length))

pub blank_not_stuck :
    ¬ IsStuck chip_ops chip_laws cipher accelerator cipher_laws stage1 stage1-IsLayout blank_machine
      refl
blank_not_stuck (inl e) = blank_bak_bad e.image
blank_not_stuck (inr e) = blank_app_bad e.image

-- BAK alone
abbrev pub bak_only : Memory
bak_only = store blank 131072 bak_bytes

abbrev pub bak_machine : Machine chip_ops cipher
bak_machine = machine bak_only (store-lt blank 131072 bak_bytes blank_bytes refl)

pub only_app_length : image_length bak_only 65536 ≡ 4294967295
unfolding image_length store word32 span
only_app_length = refl

pub only_bak_length : image_length bak_only 131072 ≡ 2
unfolding image_length store word32 span
only_bak_length = refl

pub only_app_bad : ¬ IsImage accelerator 65536 bak_only 65536
only_app_bad e = absurd (omega (arith, e.fits, only_app_length))

pub only_bak-IsImage : IsImage accelerator 65536 bak_only 131072
unfolding image_length image_sign image_message checksum store bytes_of32 word32 span read_hash
    words_of image_codes bytes_to_pad
only_bak-IsImage = record { fits = omega (arith, only_bak_length); signed = refl }

pub only_plain : bit_and (bak_only 131072) 1 ≡ 0
unfolding store
only_plain = refl

pub bak_not_stuck :
    ¬ IsStuck chip_ops chip_laws cipher accelerator cipher_laws stage1 stage1-IsLayout bak_machine
      refl
bak_not_stuck (inl e) = absurd (omega (arith, e.encrypted, only_plain))
bak_not_stuck (inr e) = only_app_bad e.image

pub only_app_in : sign_address bak_only 65536 + 32 ≤ capacity
unfolding sign_address
only_app_in = omega (arith, only_app_length)

pub only_bak_in : sign_address bak_only 131072 + 32 ≤ capacity
unfolding sign_address
only_bak_in = omega (arith, only_bak_length)

pub only_differ : stored_sign bak_only 65536 ≢ stored_sign bak_only 131072
unfolding stored_sign sign_address image_length store word32 span
only_differ e = absurd (omega (arith, ap (λ bs. get_or bs 0 0) e))

-- APP with one of its codes changed, and BAK as APP was
abbrev pub broken_bytes : List ℕ
broken_bytes = 0 ∷ 2 ∷ 0 ∷ 0 ∷ 0 ∷ 4 ∷ 6 ∷ (replicate 24 0 ++ 0 ∷ 4 ∷ 5 ∷ 0x80 ∷ 0 ∷ 2 ∷ 0 ∷ 0 ∷ [])

abbrev pub broken : Memory
broken = store (store blank 65536 broken_bytes) 131072 bak_bytes

abbrev pub broken_machine : Machine chip_ops cipher
broken_machine =
    machine broken
      (store-lt _ 131072 bak_bytes (store-lt blank 65536 broken_bytes blank_bytes refl) refl)

pub broken_app_length : image_length broken 65536 ≡ 2
unfolding image_length store word32 span
broken_app_length = refl

pub broken_bak_length : image_length broken 131072 ≡ 2
unfolding image_length store word32 span
broken_bak_length = refl

pub broken_app_bad : ¬ IsImage accelerator 65536 broken 65536
unfolding image_length image_sign image_message checksum store bytes_of32 word32 span read_hash
    words_of image_codes bytes_to_pad
broken_app_bad e = absurd (omega (arith, ap (λ bs. get_or bs 26 0) e.signed))

pub broken_bak-IsImage : IsImage accelerator 65536 broken 131072
unfolding image_length image_sign image_message checksum store bytes_of32 word32 span read_hash
    words_of image_codes bytes_to_pad
broken_bak-IsImage = record { fits = omega (arith, broken_bak_length); signed = refl }

pub broken_plain : (bit_and (broken 65536) 1 ≡ 0) × (bit_and (broken 131072) 1 ≡ 0)
unfolding store
broken_plain = (refl, refl)

pub broken_not_stuck :
    ¬ IsStuck chip_ops chip_laws cipher accelerator cipher_laws stage1 stage1-IsLayout
      broken_machine refl
broken_not_stuck (inl e) = absurd (omega (arith, e.encrypted, broken_plain.1))
broken_not_stuck (inr e) = broken_app_bad e.image

pub broken_app_in : sign_address broken 65536 + 32 ≤ capacity
unfolding sign_address
broken_app_in = omega (arith, broken_app_length)

pub broken_bak_in : sign_address broken 131072 + 32 ≤ capacity
unfolding sign_address
broken_bak_in = omega (arith, broken_bak_length)

pub broken_same : stored_sign broken 65536 ≡ stored_sign broken 131072
unfolding stored_sign sign_address image_length store word32 span
broken_same = refl

-- APP encrypted, of one block
abbrev pub cipher_bytes : List ℕ
cipher_bytes =
    1
    ∷ 16
    ∷ 0
    ∷ 0
    ∷ 0
    ∷ (replicate 16 7
        ++ replicate 8 0
        ++ 7 ∷ 0x80 ∷ 0 ∷ 0 ∷ (replicate 12 7 ++ 0 ∷ 7 ∷ 7 ∷ 7 ∷ 1 ∷ 16 ∷ 0 ∷ 0 ∷ []))

abbrev pub encrypted : Memory
encrypted = store (store blank 65536 cipher_bytes) 131072 bak_bytes

abbrev pub cipher_machine : Machine chip_ops cipher
cipher_machine =
    machine encrypted
      (store-lt _ 131072 bak_bytes (store-lt blank 65536 cipher_bytes blank_bytes refl) refl)

pub cipher_app_length : image_length encrypted 65536 ≡ 16
unfolding image_length store word32 span
cipher_app_length = refl

pub cipher_bak_length : image_length encrypted 131072 ≡ 2
unfolding image_length store word32 span
cipher_bak_length = refl

pub cipher_app-IsImage : IsImage accelerator 65536 encrypted 65536
unfolding image_length image_sign image_message checksum store bytes_of32 word32 span read_hash
    words_of image_codes bytes_to_pad
cipher_app-IsImage = record { fits = omega (arith, cipher_app_length); signed = refl }

pub cipher_flags : (bit_and (encrypted 65536) 1 ≡ 1) × (bit_and (encrypted 131072) 1 ≡ 0)
unfolding store
cipher_flags = (refl, refl)

pub cipher_not_stuck :
    ¬ IsStuck chip_ops chip_laws cipher accelerator cipher_laws stage1 stage1-IsLayout
      cipher_machine refl
cipher_not_stuck (inl e) = absurd (omega (arith, e.encrypted, cipher_flags.1))
cipher_not_stuck (inr e) = e.ragged (omega (arith, cipher_app_length))

pub cipher_app_in : sign_address encrypted 65536 + 32 ≤ capacity
unfolding sign_address
cipher_app_in = omega (arith, cipher_app_length)

pub cipher_bak_in : sign_address encrypted 131072 + 32 ≤ capacity
unfolding sign_address
cipher_bak_in = omega (arith, cipher_bak_length)

pub cipher_differ : stored_sign encrypted 65536 ≢ stored_sign encrypted 131072
unfolding stored_sign sign_address image_length store word32 span
cipher_differ e = absurd (omega (arith, ap (λ bs. get_or bs 8 0) e))
