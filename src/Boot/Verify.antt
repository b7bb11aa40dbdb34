-- ===== src/Boot/Verify.antt =====
-- `flash_image_check` of src/main.c, up to the deciphering.
use k210_guard_bootloader.Prelude.{
  ℕ, ◌+◌, ◌-◌, ◌^◌, ◌≤◌, ◌<◌, ◌≡◌, refl, sym, ap, ap₂, ◌∙◌, true, false, Option, some, List, ◌∷◌,
  ◌++◌, arith,
}
use k210_guard_bootloader.Prelude.Tests.{ltb, if◌then◌else◌}
use k210_guard_bootloader.Prelude.Lists.{length}
use k210_guard_bootloader.Prelude.Words.{u32, bytes_of32}
use k210_guard_bootloader.Prelude.Memory.{Memory, span, store, span-store_self, length-span}
use k210_guard_bootloader.Flash.Ops.{FlashOps, FlashLaws, capacity}
use k210_guard_bootloader.Boot.{
  CipherOps, CheckResult, oversize, sha256_mismatch, Header, Machine, equal_bytes, load_header,
  load_codes, image_digest, decipher_firmware, flash_image_check,
}
use k210_guard_bootloader.Boot.Image.{
  image_length, image_codes, image_sign, image_message, checksum,
}
use k210_guard_bootloader.Boot.Steps.{
  Reads, header_lem, load_header-Reads, ram-load_header, sign-load_codes, ram-load_codes,
  load_codes-Reads, digest_lem, buffer-image_digest,
}

module _ (f : FlashOps) (laws : FlashLaws f) (c : CipherOps) (accelerator : ℕ → List ℕ → List ℕ)
    (s : Machine f c) (a size : ℕ) (buffer : length s.sha.context.buffer ≡ 64) (room : 37 ≤ size)
    (fits : a + size ≤ capacity) where
  abbrev m : Memory
  m = FlashLaws.content laws s.flash

  abbrev len : ℕ
  len = image_length m a

  abbrev header : Header
  header = record { firmware_aes_enabled = m a; codes_length = len }

  abbrev s1 : Machine f c
  s1 = (load_header f c s a).1

  -- the function after its first two reads
  abbrev check_from : Header → Option (CheckResult × Machine f c)
  check_from h =
      let (sign_firmware, s2) = load_codes f c s1 a h.codes_length in
      let (sign, s3) = image_digest f c accelerator s2 h in
      if ltb (u32 (size + 2 ^ 32 - 1 - 4 - 32)) h.codes_length
      then some (oversize, s1)
      else if equal_bytes sign_firmware sign
      then decipher_firmware f c h.firmware_aes_enabled h.codes_length s3
      else some (sha256_mismatch, s3)

  check-eq : flash_image_check f c accelerator s a size ≡ check_from header
  unfolding flash_image_check
  check-eq = ap check_from (header_lem f laws c s a (omega arith))

  -- An image that is longer than the partition is refused, and nothing is loaded.
  pub check_oversize :
      size < len + 37 → flash_image_check f c accelerator s a size ≡ some (oversize, s1)
  check_oversize long = check-eq ∙ rw test refl
    where
      test : ltb (u32 (size + 2 ^ 32 - 1 - 4 - 32)) len ≡ true
      test = ground arith

  pub check_oversize-Reads : Reads f laws c s s1
  check_oversize-Reads = load_header-Reads f laws c s a buffer

  pub check_oversize-ram : s1.ram ≡ s.ram
  check_oversize-ram = ram-load_header f laws c s a

  -- The machine once the codes are loaded and hashed.
  abbrev pub loaded : Machine f c
  loaded = (image_digest f c accelerator (load_codes f c s1 a len).1 header).1

  module _ (short : len + 37 ≤ size) where
    read1 : Reads f laws c s s1
    read1 = load_header-Reads f laws c s a buffer

    read2 : Reads f laws c s1 (load_codes f c s1 a len).1
    read2 = load_codes-Reads f laws c s1 a len read1.ready (omega arith) read1.buffer

    pub loaded-ram : loaded.ram ≡ store s.ram 0 (image_codes m a)
    unfolding image_digest image_codes
    loaded-ram =
        ram-load_codes f laws c s1 a len read1.ready (omega arith)
        ∙ ap₂ (λ (r k : Memory). store r 0 (span k (a + 5) len)) (ram-load_header f laws c s a)
            read1.content

    pub loaded-Reads : Reads f laws c s loaded
    unfolding image_digest
    loaded-Reads = record {
      content = read2.content ∙ read1.content;
      ready = read2.ready;
      keys = read2.keys ∙ read1.keys;
      buffer = buffer-image_digest f c accelerator (load_codes f c s1 a len).1 header read2.buffer;
    }

    ram_codes : span (load_codes f c s1 a len).1.ram 0 len ≡ image_codes m a
    unfolding image_codes
    ram_codes =
        ap (λ (r : Memory). span r 0 len)
          (ram-load_codes f laws c s1 a len read1.ready (omega arith)
            ∙ ap (λ (k : Memory). store s1.ram 0 (span k (a + 5) len)) read1.content)
        ∙ ap (span (store s1.ram 0 (span m (a + 5) len)) 0) (sym (length-span m (a + 5) len))
        ∙ span-store_self s1.ram 0 (span m (a + 5) len)

    -- An image that fits is loaded, and goes on to be deciphered exactly if its checksum is right.
    pub check_loaded : flash_image_check f c accelerator s a size ≡ (
        if equal_bytes (image_sign m a) (checksum accelerator (image_message m a))
        then decipher_firmware f c (m a) len loaded
        else some (sha256_mismatch, loaded))
    unfolding image_sign image_message
    check_loaded =
        check-eq
        ∙ rw test (
            ap₂
              (λ (x y : List ℕ).
                if equal_bytes x y
                then decipher_firmware f c (m a) len loaded
                else some (sha256_mismatch, loaded))
              (sign-load_codes f laws c s1 a len read1.ready (omega arith)
                ∙ ap (λ (k : Memory). span k (a + 5 + len) 32) read1.content)
              (digest_lem f c accelerator (load_codes f c s1 a len).1 header read2.buffer
                  (omega arith)
                ∙ ap (λ l. checksum accelerator (m a ∷ (bytes_of32 len ++ l))) ram_codes))
      where
        test : ltb (u32 (size + 2 ^ 32 - 1 - 4 - 32)) len ≡ false
        test = ground arith
