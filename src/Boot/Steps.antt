-- ===== src/Boot/Steps.antt =====
-- The parts of `flash_image_check` of src/main.c: the reads, and the digest.
use k210_guard_bootloader.Prelude.{
  ℕ, ◌+◌, ◌^◌, ◌≤◌, ◌<◌, ◌≡◌, refl, sym, ap, ap₂, ◌∙◌, List, [], ◌∷◌, ◌++◌, append-nil, arith,
}
use k210_guard_bootloader.Prelude.Lists.{length, get_or}
use k210_guard_bootloader.Prelude.Words.{u32, bytes_of32, word32}
use k210_guard_bootloader.Prelude.Memory.{Memory, span, store, length-span}
use k210_guard_bootloader.Flash.{flash_read_data}
use k210_guard_bootloader.Flash.Ops.{FlashOps, FlashLaws, capacity}
use k210_guard_bootloader.Flash.Read.{
  flash_read_data-content, flash_read_data-IsReady, flash_read_data-bytes,
}
use k210_guard_bootloader.Sha256.{sha256_init, sha256_update, sha256_final}
use k210_guard_bootloader.Sha256.Stream.{joined, sha256_update-Taken, sha256_init-Taken}
use k210_guard_bootloader.Sha256.Padding.{length-buffer-finish}
use k210_guard_bootloader.Sha256.Digest.{sha256_lem}
use k210_guard_bootloader.Boot.{CipherOps, Header, Machine, load_header, load_codes, image_digest}
use k210_guard_bootloader.Boot.Image.{image_length, checksum}

module _ (f : FlashOps) (laws : FlashLaws f) (c : CipherOps) where
  -- `t` differs from `s` by reads of the flash, and in RAM and the accelerator.
  pub record Reads (s t : Machine f c) : Type 0 where
    pub content : FlashLaws.content laws t.flash ≡ FlashLaws.content laws s.flash
    pub ready : FlashLaws.IsReady laws t.flash
    pub keys : t.keys ≡ s.keys
    pub buffer : length t.sha.context.buffer ≡ 64

module _ (f : FlashOps) (laws : FlashLaws f) (c : CipherOps) where
  open f use {flash_init, flash_enable_quad_mode}
  open laws use {content, IsReady, IsWritable}

  abbrev opened : Machine f c → FlashOps.State f
  opened s = flash_enable_quad_mode (flash_init 1 s.flash)

  pub header_lem :
      (s : Machine f c) (a : ℕ)
      → a + 5 ≤ capacity
      → (load_header f c s a).0 ≡ record {
        firmware_aes_enabled = content s.flash a;
        codes_length = image_length (content s.flash) a;
      }
  unfolding load_header image_length span
  header_lem s a fits = λ i. record {
    firmware_aes_enabled = (flag ∙ ap (λ (m : Memory). m a) (laws.init-content s.flash)) i;
    codes_length = ap word32 (len_bytes ∙ ap₂ (λ (m : Memory) (x : ℕ). span m x 4) same at) i;
  }
    where
      t : FlashOps.State f
      t = (flash_read_data f (opened s) a 1).1

      flag : get_or (flash_read_data f (opened s) a 1).0 0 0 ≡ content (opened s) a
      flag =
          ap (λ l. get_or l 0 0)
            (flash_read_data-bytes f laws (opened s) a 1 (laws.init-IsReady s.flash) (omega arith))

      len_bytes : (flash_read_data f t (u32 (a + 1)) 4).0 ≡ span (content t) (u32 (a + 1)) 4
      len_bytes =
          flash_read_data-bytes f laws t (u32 (a + 1)) 4
            (flash_read_data-IsReady f laws (opened s) a 1 (laws.init-IsReady s.flash))
            (omega arith)

      at : u32 (a + 1) ≡ a + 1
      at = omega arith

      same : content t ≡ content s.flash
      same = flash_read_data-content f laws (opened s) a 1 ∙ laws.init-content s.flash

  pub load_header-Reads :
      (s : Machine f c) (a : ℕ)
      → length s.sha.context.buffer ≡ 64
      → Reads f laws c s (load_header f c s a).1
  unfolding load_header
  load_header-Reads s a buffer = record {
    content =
        flash_read_data-content f laws _ _ 4
        ∙ flash_read_data-content f laws _ a 1
        ∙ laws.init-content s.flash;
    ready =
        flash_read_data-IsReady f laws _ _ 4
          (flash_read_data-IsReady f laws _ a 1 (laws.init-IsReady s.flash));
    keys = refl;
    buffer = buffer;
  }

  pub ram-load_header : (s : Machine f c) (a : ℕ) → (load_header f c s a).1.ram ≡ s.ram
  unfolding load_header
  ram-load_header s a = refl

  pub cipher-load_header : (s : Machine f c) (a : ℕ) → (load_header f c s a).1.cipher ≡ s.cipher
  unfolding load_header
  cipher-load_header s a = refl

  module _ (s : Machine f c) (a len : ℕ) (ready : IsReady s.flash)
      (fits : a + 5 + len + 32 ≤ capacity) where
    pub sign-load_codes : (load_codes f c s a len).0 ≡ span (content s.flash) (a + 5 + len) 32
    unfolding load_codes
    sign-load_codes =
        flash_read_data-bytes f laws _ (u32 (a + 5 + len)) 32
          (flash_read_data-IsReady f laws s.flash (u32 (a + 5)) len ready) (omega arith)
        ∙ ap₂ (λ (m : Memory) (x : ℕ). span m x 32)
            (flash_read_data-content f laws s.flash (u32 (a + 5)) len) (omega arith)

    pub ram-load_codes :
        (load_codes f c s a len).1.ram ≡ store s.ram 0 (span (content s.flash) (a + 5) len)
    unfolding load_codes
    ram-load_codes = ap (store s.ram 0) (
        flash_read_data-bytes f laws s.flash (u32 (a + 5)) len ready (omega arith)
        ∙ ap (λ (x : ℕ). span (content s.flash) x len) (omega arith))

    pub load_codes-Reads :
        length s.sha.context.buffer ≡ 64 → Reads f laws c s (load_codes f c s a len).1
    unfolding load_codes
    load_codes-Reads buffer = record {
      content =
          flash_read_data-content f laws _ _ 32 ∙ flash_read_data-content f laws s.flash _ len;
      ready =
          flash_read_data-IsReady f laws _ _ 32
            (flash_read_data-IsReady f laws s.flash _ len ready);
      keys = refl;
      buffer = buffer;
    }

module _ (f : FlashOps) (c : CipherOps) (accelerator : ℕ → List ℕ → List ℕ) where
  abbrev pieces : Machine f c → Header → List (List ℕ)
  pieces s h =
      (h.firmware_aes_enabled ∷ []) ∷ bytes_of32 h.codes_length ∷ span s.ram 0 h.codes_length ∷ []

  joined-pieces :
      (s : Machine f c) (h : Header)
      → joined (pieces s h)
        ≡ h.firmware_aes_enabled ∷ (bytes_of32 h.codes_length ++ span s.ram 0 h.codes_length)
  joined-pieces s h =
      ap (λ l. h.firmware_aes_enabled ∷ (bytes_of32 h.codes_length ++ l)) (append-nil _)

  length-pieces : (s : Machine f c) (h : Header) → length (joined (pieces s h)) ≡ h.codes_length + 5
  unfolding bytes_of32
  length-pieces s h = omega (
    arith,
    ap length (append-nil (span s.ram 0 h.codes_length)),
    length-span s.ram 0 h.codes_length,
  )

  -- The digest is that of the five bytes of header and of what RAM holds.
  pub digest_lem :
      (s : Machine f c) (h : Header)
      → length s.sha.context.buffer ≡ 64
      → h.codes_length + 69 < 2 ^ 32
      → (image_digest f c accelerator s h).0
        ≡ checksum accelerator
            (h.firmware_aes_enabled ∷ (bytes_of32 h.codes_length ++ span s.ram 0 h.codes_length))
  unfolding image_digest checksum bytes_of32
  digest_lem s h buffer fits =
      ap₂ run size (sym (length-span s.ram 0 h.codes_length))
      ∙ sha256_lem accelerator s.sha (pieces s h) buffer (omega (arith, length-pieces s h))
      ∙ ap (checksum accelerator) (joined-pieces s h)
    where
      run : ℕ → ℕ → List ℕ
      run input_size n =
          (sha256_final accelerator (
            sha256_update
              (sha256_update
                (sha256_update (sha256_init 0 0 input_size s.sha) (h.firmware_aes_enabled ∷ []) 1)
                (bytes_of32 h.codes_length) 4)
              (span s.ram 0 h.codes_length) n)).0

      size : u32 (h.codes_length + 5) ≡ length (joined (pieces s h))
      size = omega (arith, length-pieces s h)

  pub buffer-image_digest :
      (s : Machine f c) (h : Header)
      → length s.sha.context.buffer ≡ 64
      → length (image_digest f c accelerator s h).1.sha.context.buffer ≡ 64
  unfolding image_digest sha256_final bytes_of32
  buffer-image_digest s h buffer = length-buffer-finish (
      sha256_update-Taken (span s.ram 0 h.codes_length) h.codes_length
        (omega (arith, length-span s.ram 0 h.codes_length))
        (sha256_update-Taken (bytes_of32 h.codes_length) 4 (omega arith) (
          sha256_update-Taken (h.firmware_aes_enabled ∷ []) 1 (omega arith)
            (sha256_init-Taken 0 0 (u32 (h.codes_length + 5)) s.sha buffer))))
