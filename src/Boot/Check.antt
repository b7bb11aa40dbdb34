-- ===== src/Boot/Check.antt =====
-- What `flash_image_check` of src/main.c returns and leaves, whatever the flash holds.
use k210_guard_bootloader.Prelude.{
  ℕ, ◌+◌, ◌*◌, ◌/◌, ◌%◌, ◌≤◌, ◌<◌, bit_and, ◌≡◌, ◌≢◌, refl, sym, ap₂, subst, ◌∙◌, ◌⊎◌, inl, inr,
  true, false, Option, none, some, List, [], ◌∷◌, arith,
}
use k210_guard_bootloader.Prelude.Tests.{ltb, ◌==◌, ==_iff, if◌then◌else◌, Bool-cases}
use k210_guard_bootloader.Prelude.Lists.{length}
use k210_guard_bootloader.Prelude.Bits.{bit_and_mask}
use k210_guard_bootloader.Prelude.Memory.{Memory, store}
use k210_guard_bootloader.Flash.Ops.{FlashOps, FlashLaws, capacity}
use k210_guard_bootloader.Boot.{
  CipherOps, CheckResult, pass, oversize, sha256_mismatch, Machine, equal_bytes, flash_image_check,
  load_header, load_codes, image_digest, decipher_firmware,
}
use k210_guard_bootloader.Boot.Image.{
  image_length, image_codes, image_sign, image_message, checksum, IsImage,
}
use k210_guard_bootloader.Boot.Steps.{Reads}
use k210_guard_bootloader.Boot.Verify.{
  check_oversize, check_oversize-Reads, check_oversize-ram, loaded, loaded-ram, loaded-Reads,
  check_loaded,
}
use k210_guard_bootloader.Boot.Decipher.{
  plain_text, CipherLaws, decipher_firmware-plain, decipher_firmware-blocks,
  decipher_firmware-diverges, ready,
}

-- The comparison decides equality.
pub equal_bytes-eq : (xs ys : List ℕ) → equal_bytes xs ys ≡ true → xs ≡ ys
unfolding equal_bytes
equal_bytes-eq [] [] h = refl
equal_bytes-eq [] (y ∷ ys) h = absurd (ground (arith, h))
equal_bytes-eq (x ∷ xs) [] h = absurd (ground (arith, h))
equal_bytes-eq (x ∷ xs) (y ∷ ys) h = elim (Bool-cases (x == y)) [
  | inl same ↦ ap₂ ◌∷◌ ((==_iff x y).0 same) (equal_bytes-eq xs ys (ground (arith, h, same)))
  | inr differ ↦ absurd (ground (arith, h, differ))
]

pub equal_bytes_refl : (xs : List ℕ) → equal_bytes xs xs ≡ true
unfolding equal_bytes
equal_bytes_refl [] = refl
equal_bytes_refl (x ∷ xs) = rw ((==_iff x x).1 refl) (equal_bytes_refl xs)

bit_and-one : (x : ℕ) → (bit_and x 1 ≡ 0) ⊎ (bit_and x 1 ≡ 1)
bit_and-one x = ground (arith, bit_and_mask 1 x)

module _ (f : FlashOps) (laws : FlashLaws f) (c : CipherOps) (accelerator : ℕ → List ℕ → List ℕ)
    (s : Machine f c) (a size : ℕ) where
  abbrev m : Memory
  m = FlashLaws.content laws s.flash

  abbrev len : ℕ
  len = image_length m a

  -- RAM once the codes are read
  abbrev pub codes_ram : Memory
  codes_ram = store s.ram 0 (image_codes m a)

  -- What `flash_image_check` promises of its result.
  pub data Verdict (o : Option (CheckResult × Machine f c)) : Type 0 where
    too_long :
        (t : Machine f c)
        → o ≡ some (oversize, t)
        → size < len + 37
        → Reads f laws c s t
        → t.ram ≡ s.ram
        → Verdict o
    unsigned :
        (t : Machine f c)
        → o ≡ some (sha256_mismatch, t)
        → len + 37 ≤ size
        → image_sign m a ≢ checksum accelerator (image_message m a)
        → Reads f laws c s t
        → t.ram ≡ codes_ram
        → Verdict o
    plain :
        (t : Machine f c)
        → o ≡ some (pass, t)
        → IsImage accelerator size m a
        → bit_and (m a) 1 ≡ 0
        → Reads f laws c s t
        → t.ram ≡ codes_ram
        → Verdict o
    deciphered :
        (t : Machine f c) (blocks : ℕ)
        → o ≡ some (pass, t)
        → IsImage accelerator size m a
        → bit_and (m a) 1 ≡ 1
        → len ≡ 16 * blocks
        → Reads f laws c s t
        → t.ram ≡ store codes_ram 0 (plain_text c blocks (ready f c s len) codes_ram 0).0
        → Verdict o
    endless :
        o ≡ none → IsImage accelerator size m a → bit_and (m a) 1 ≡ 1 → len % 16 ≢ 0 → Verdict o

  module _ (buffer : length s.sha.context.buffer ≡ 64) (room : 37 ≤ size)
      (fits : a + size ≤ capacity) (cipher : CipherLaws c) where
    abbrev loaded_machine : Machine f c
    loaded_machine = loaded f laws c accelerator s a size buffer room fits

    loaded-cipher : ready f c loaded_machine len ≡ ready f c s len
    unfolding load_header load_codes image_digest
    loaded-cipher = refl

    signed-Verdict :
        IsImage accelerator size m a
        → flash_image_check f c accelerator s a size
          ≡ decipher_firmware f c (m a) len loaded_machine
        → Verdict (flash_image_check f c accelerator s a size)
    signed-Verdict image e = elim (bit_and-one (m a)) [
      | inl even ↦
          plain loaded_machine (e ∙ decipher_firmware-plain f c (m a) len loaded_machine even) image
            even reads ram
      | inr odd ↦ elim (Bool-cases (len % 16 == 0)) [
        | inl whole ↦
            deciphered _ (len / 16)
              (e
                ∙ decipher_firmware-blocks f c cipher (m a) (len / 16) len loaded_machine odd
                    (ground (arith, whole)) (omega (arith, image.fits)))
              image odd (ground (arith, whole))
              (record {
                content = reads.content;
                ready = reads.ready;
                keys = reads.keys;
                buffer = reads.buffer;
              })
              (ap₂
                (λ (r : Memory) (b : CipherOps.State c).
                  store r 0 (plain_text c (len / 16) b r 0).0)
                ram loaded-cipher)
        | inr ragged ↦
            endless
              (e
                ∙ decipher_firmware-diverges f c (m a) len loaded_machine odd
                    (omega (arith, image.fits)) (ground (arith, ragged)))
              image odd (ground (arith, ragged))
      ]
    ]
      where
        reads : Reads f laws c s loaded_machine
        reads = loaded-Reads f laws c accelerator s a size buffer room fits image.fits

        ram : loaded_machine.ram ≡ codes_ram
        ram = loaded-ram f laws c accelerator s a size buffer room fits image.fits

    -- For a partition of 37 bytes at least that is in the chip, `flash_image_check` refuses
    -- an image that is longer than its partition, and one whose checksum is wrong, and passes
    -- any other, with RAM holding the codes, deciphered in blocks of 16 if the flag asks for
    -- it; it does not return if the flag does and the length is no multiple of 16. The
    -- flash's content stays.
    pub flash_image_check-Verdict : Verdict (flash_image_check f c accelerator s a size)
    flash_image_check-Verdict = elim (Bool-cases (ltb size (len + 37))) [
      | inl long ↦
          too_long _
            (check_oversize f laws c accelerator s a size buffer room fits (ground (arith, long)))
            (ground (arith, long))
            (check_oversize-Reads f laws c accelerator s a size buffer room fits)
            (check_oversize-ram f laws c accelerator s a size buffer room fits)
      | inr short ↦
          elim (Bool-cases
            (equal_bytes (image_sign m a) (checksum accelerator (image_message m a)))) [
              | inl same ↦
                  signed-Verdict
                    (record { fits = ground (arith, short); signed = equal_bytes-eq _ _ same })
                    (checked (ground (arith, short)) ∙ rw same refl)
              | inr differ ↦
                  unsigned loaded_machine (checked (ground (arith, short)) ∙ rw differ refl)
                    (ground (arith, short))
                    (λ e.
                      unequal (subst (λ l. equal_bytes (image_sign m a) l ≡ false) (sym e) differ))
                    (loaded-Reads f laws c accelerator s a size buffer room fits
                      (ground (arith, short)))
                    (loaded-ram f laws c accelerator s a size buffer room fits
                      (ground (arith, short)))
            ]
    ]
      where
        unequal : ¬ (equal_bytes (image_sign m a) (image_sign m a) ≡ false)
        unequal e = absurd (ground (arith, e, equal_bytes_refl (image_sign m a)))

        checked :
            len + 37 ≤ size
            → flash_image_check f c accelerator s a size ≡ (
                if equal_bytes (image_sign m a) (checksum accelerator (image_message m a))
                then decipher_firmware f c (m a) len loaded_machine
                else some (sha256_mismatch, loaded_machine))
        checked = check_loaded f laws c accelerator s a size buffer room fits
