-- ===== src/Boot/Decipher.antt =====
-- "Decipher firmware" in `flash_image_check` of src/main.c.
use k210_guard_bootloader.Prelude.{
  ℕ, zero, suc, ◌+◌, ◌-◌, ◌*◌, ◌%◌, ◌^◌, ◌≤◌, ◌<◌, bit_and, ◌≡◌, ◌≢◌, refl, sym, ap, ◌∙◌, inl, true,
  false, Option, none, some, List, [], ◌++◌, arith,
}
use k210_guard_bootloader.Prelude.Tests.{◌==◌}
use k210_guard_bootloader.Prelude.Lists.{length, replicate}
use k210_guard_bootloader.Prelude.Words.{u32}
use k210_guard_bootloader.Prelude.Memory.{
  Memory, span, store, span-store_other, store-append, store-nil,
}
use k210_guard_bootloader.Flash.Ops.{FlashOps}
use k210_guard_bootloader.Boot.{CipherOps, pass, Machine, decipher_loop, decipher_firmware}

module _ (c : CipherOps) where
  open c use {State, aes_process}

  -- `aes_process` on one block of a memory after another: the plain text, and the unit's state.
  unfoldable pub plain_text : ℕ → State → Memory → ℕ → List ℕ × State
  plain_text zero a ram ptr = ([], a)
  plain_text (suc blocks) a ram ptr =
      let (out, b) = aes_process a (span ram ptr 16) in
      let (rest, d) = plain_text blocks b ram (ptr + 16) in (out ++ rest, d)

  -- The plain text depends on the blocks alone.
  plain_text_cong :
      (blocks : ℕ) (a : State) (m k : Memory) (ptr : ℕ)
      → ((b : ℕ) → ptr ≤ b → span m b 16 ≡ span k b 16)
      → plain_text blocks a m ptr ≡ plain_text blocks a k ptr
  unfolding plain_text
  plain_text_cong zero a m k ptr h = refl
  plain_text_cong (suc blocks) a m k ptr h =
      ap
        (λ (bs : List ℕ).
          let (out, b) = aes_process a bs in
          let (rest, d) = plain_text blocks b m (ptr + 16) in (out ++ rest, d))
        (h ptr (omega arith))
      ∙ ap (λ (p : List ℕ × State). ((aes_process a (span k ptr 16)).0 ++ p.0, p.1))
          (plain_text_cong blocks (aes_process a (span k ptr 16)).1 m k (ptr + 16)
            (λ b q. h b (omega arith)))

  -- What the AES unit promises: a block of 16 bytes for each block.
  pub record CipherLaws : Type 0 where
    pub block_length : (a : State) (bs : List ℕ) → length (aes_process a bs).0 ≡ 16

module _ (f : FlashOps) (c : CipherOps) where
  open c use {
    State, aes_process, otp_key_output_enable, otp_key_output_disable, aes_reset, aes_init,
  }

  -- The deciphering loop does not end for a length below 2 ^ 32 that is no multiple of 16,
  -- whatever the fuel.
  pub decipher_loop-diverges :
      (fuel : ℕ) (a : State) (ram : Memory) (ptr codes_length : ℕ)
      → codes_length < 2 ^ 32
      → codes_length % 16 ≢ 0
      → decipher_loop f c fuel a ram ptr codes_length ≡ none
  unfolding decipher_loop
  decipher_loop-diverges zero a ram ptr n fits odd = refl
  decipher_loop-diverges (suc fuel) a ram ptr n fits odd = rw (test) (
      decipher_loop-diverges fuel _ _ (ptr + 16) (u32 (n + 2 ^ 32 - 16)) (omega arith)
        (omega arith))
    where
      test : (n == 0) ≡ false
      test = ground arith

  -- For a length below 2 ^ 32 that is a multiple of 16, a unit that returns 16 bytes for each
  -- block, and fuel for more rounds than there are blocks, the deciphering loop ends, and RAM
  -- holds the plain text of the blocks in place of these.
  pub decipher_loop-plain_text :
      CipherLaws c
      → (blocks fuel : ℕ) (a : State) (ram : Memory) (ptr n : ℕ) → n ≡ 16 * blocks
      → n < 2 ^ 32
      → blocks < fuel
      → let (text, b) = plain_text c blocks a ram ptr in
        decipher_loop f c fuel a ram ptr n ≡ some (b, store ram ptr text)
  unfolding decipher_loop plain_text
  decipher_loop-plain_text laws blocks zero a ram ptr n e fits enough = absurd (omega arith)
  decipher_loop-plain_text laws zero (suc fuel) a ram ptr n e fits enough =
      rw test (ap (λ (m : Memory). some (a, m)) (sym (store-nil ram ptr)))
    where
      test : (n == 0) ≡ true
      test = ground arith
  decipher_loop-plain_text laws (suc blocks) (suc fuel) a ram ptr n e fits enough = rw test (
      decipher_loop-plain_text laws blocks fuel b (store ram ptr out) (ptr + 16)
        (u32 (n + 2 ^ 32 - 16)) (omega arith) (omega arith) (omega arith)
      ∙ ap (λ (p : List ℕ × State). some (p.1, store (store ram ptr out) (ptr + 16) p.0)) same
      ∙ ap (λ (m : Memory). some ((plain_text c blocks b ram (ptr + 16)).1, m)) joined)
    where
      out : List ℕ
      out = (aes_process a (span ram ptr 16)).0

      b : State
      b = (aes_process a (span ram ptr 16)).1

      test : (n == 0) ≡ false
      test = ground arith

      same :
          plain_text c blocks b (store ram ptr out) (ptr + 16)
          ≡ plain_text c blocks b ram (ptr + 16)
      same = plain_text_cong c blocks b (store ram ptr out) ram (ptr + 16) (λ x p.
          span-store_other ram ptr out x 16
            (inl (omega (arith, laws.block_length a (span ram ptr 16)))))

      joined :
          store (store ram ptr out) (ptr + 16) (plain_text c blocks b ram (ptr + 16)).0
          ≡ store ram ptr (out ++ (plain_text c blocks b ram (ptr + 16)).0)
      joined =
          ap (λ (x : ℕ). store (store ram ptr out) x (plain_text c blocks b ram (ptr + 16)).0)
            (omega (arith, laws.block_length a (span ram ptr 16)))
          ∙ store-append ram ptr out (plain_text c blocks b ram (ptr + 16)).0

  -- An image whose flag has bit 0 clear is left as it is loaded.
  pub decipher_firmware-plain :
      (flag len : ℕ) (s : Machine f c)
      → bit_and flag 1 ≡ 0
      → decipher_firmware f c flag len s ≡ some (pass, s)
  unfolding decipher_firmware
  decipher_firmware-plain flag len s even = rw even refl

  abbrev pub ready : Machine f c → ℕ → State
  ready s len =
      aes_init (aes_reset (otp_key_output_enable s.cipher)) (replicate 16 0) (replicate 16 0) len

  -- An image whose flag has bit 0 set: deciphered in place if its length is a multiple of 16.
  pub decipher_firmware-blocks :
      CipherLaws c
      → (flag blocks len : ℕ) (s : Machine f c) → bit_and flag 1 ≡ 1
      → len ≡ 16 * blocks
      → len < 2 ^ 32
      → let (text, b) = plain_text c blocks (ready s len) s.ram 0 in
        decipher_firmware f c flag len s
        ≡ some (pass, record s { cipher = otp_key_output_disable b; ram = store s.ram 0 text })
  unfolding decipher_firmware
  decipher_firmware-blocks laws flag blocks len s odd e fits = rw odd (
      ap
        (λ (o : Option (State × Memory)). elim o [
          | none ↦ none
          | some (a, ram') ↦ some (pass, record s { cipher = otp_key_output_disable a; ram = ram' })
        ])
        (decipher_loop-plain_text laws blocks (suc len) (ready s len) s.ram 0 len e fits
          (omega arith)))

  -- Any other length: `flash_image_check` does not return.
  pub decipher_firmware-diverges :
      (flag len : ℕ) (s : Machine f c)
      → bit_and flag 1 ≡ 1
      → len < 2 ^ 32
      → len % 16 ≢ 0
      → decipher_firmware f c flag len s ≡ none
  unfolding decipher_firmware
  decipher_firmware-diverges flag len s odd fits ragged =
      rw (odd, decipher_loop-diverges (suc len) (ready s len) s.ram 0 len fits ragged)
