-- ===== src/Boot.antt =====
-- src/main.c: the boot decision of both stages. The debug output is not modelled.
pub mod Image
pub mod Steps
pub mod Verify
pub mod Decipher
pub mod Check
pub mod Copy
pub mod Repair
pub mod Compare
pub mod Finished
pub mod Repaired
pub mod Choose
pub mod Run
pub mod Settled
pub mod Main
pub mod Recovery
pub mod Cores
pub mod Wake
pub mod Fixtures
pub mod Faults
pub mod Tests
use k210_guard_bootloader.Prelude.{
  ℕ, zero, suc, ◌+◌, ◌-◌, ◌*◌, ◌%◌, ◌^◌, bit_and, Bool, true, false, not, Option, none, some, List,
  [], ◌∷◌, ◌++◌,
}
use k210_guard_bootloader.Prelude.Tests.{ltb, ◌==◌, if◌then◌else◌}
use k210_guard_bootloader.Prelude.Lists.{get_or, replicate}
use k210_guard_bootloader.Prelude.Words.{u32, bytes_of32, word32}
use k210_guard_bootloader.Prelude.Memory.{Memory, span, store}
use k210_guard_bootloader.Flash.{
  Status, flash_read_data, flash_write_data, do_flash_erase, do_flash_write,
}
use k210_guard_bootloader.Flash.Ops.{FlashOps}
use k210_guard_bootloader.Sha256.{Sha, sha256_init, sha256_update, sha256_final}

-- FLASH_APP_ADDR, FLASH_BAK_ADDR and FLASH_NEXT_SIZE
pub record Layout : Type 0 where
  pub app : ℕ
  pub bak : ℕ
  pub next_size : ℕ

abbrev pub stage1 : Layout
stage1 = record { app = 64 * 1024; bak = 2 * 64 * 1024; next_size = 64 * 1024 }

abbrev pub stage2 : Layout
stage2 = record { app = 3 * 64 * 1024; bak = (3 * 64 + 320) * 1024; next_size = 320 * 1024 }

-- The AES and OTP drivers as `flash_image_check` uses them: the switch of the key's output, the
-- clock and reset of the AES unit, `aes_init` (CBC, decryption) with its key, its initial vector
-- and the length, and `aes_process` on a block of 16 bytes.
pub record CipherOps : Type 1 where
  pub State : Type 0
  pub otp_key_output_enable : State → State
  pub otp_key_output_disable : State → State
  pub aes_reset : State → State
  pub aes_init : State → List ℕ → List ℕ → ℕ → State
  pub aes_process : State → List ℕ → List ℕ × State

-- What `flash_image_check` returns: 0, -EXIT_REASON_OVERSIZE, -EXIT_REASON_SHA256FLASH.
pub data CheckResult : Type 0 where
  pass oversize sha256_mismatch : CheckResult

-- How `main` ends: in the loaded image, or in `sys_exit`.
pub data Outcome : Type 0 where
  go_boot exit_abnormal : Outcome

-- `app_check != 0` leads to FAILED, where the two images are the same.
unfoldable pub outcome_of : CheckResult → Outcome
outcome_of pass = go_boot
outcome_of _ = exit_abnormal

-- The comparison of two checksums, byte by byte up to the first difference.
unfoldable pub equal_bytes : List ℕ → List ℕ → Bool
equal_bytes [] [] = true
equal_bytes (x ∷ xs) (y ∷ ys) = if not (x == y) then false else equal_bytes xs ys
equal_bytes _ _ = false

-- The first five bytes of an image.
pub record Header : Type 0 where
  pub firmware_aes_enabled : ℕ
  pub codes_length : ℕ

module _ (f : FlashOps) (c : CipherOps) where
  -- The state that `main` works on. `ram` is the memory from `_boot` on. `sha` holds the
  -- accelerator's registers, and on the stack what is left of the last `SHA256Context`. `keys` are
  -- the answers of `uart_ctrlc` to come.
  pub record Machine : Type 0 where
    pub flash : FlashOps.State f
    pub cipher : CipherOps.State c
    pub sha : Sha
    pub ram : Memory
    pub keys : List Bool

module _ (f : FlashOps) (c : CipherOps) where
  open c use {otp_key_output_enable, otp_key_output_disable, aes_reset, aes_init, aes_process}
  open f use {flash_init, flash_enable_quad_mode}

  -- The loop over the blocks, on fuel: `none` is a loop that has not ended. `codes_length` wraps.
  unfoldable pub decipher_loop :
      ℕ → CipherOps.State c → Memory → ℕ → ℕ → Option (CipherOps.State c × Memory)
  decipher_loop zero a ram ptr codes_length = none
  decipher_loop (suc fuel) a ram ptr codes_length =
      let (out, a') = aes_process a (span ram ptr 16) in
      let rest =
        decipher_loop fuel a' (store ram ptr out) (ptr + 16) (u32 (codes_length + 2 ^ 32 - 16)) in
      if codes_length == 0 then some (a, ram) else rest

  -- "Decipher firmware". A length that is a multiple of 16 needs a round for each block and one
  -- to stop; for any other the loop never ends, whatever the fuel.
  unfoldable pub decipher_firmware : ℕ → ℕ → Machine f c → Option (CheckResult × Machine f c)
  decipher_firmware firmware_aes_enabled codes_length s =
      if bit_and firmware_aes_enabled 1 == 1
      then (elim loop [
        | none ↦ none
        | some (a, ram') ↦ some (pass, record s { cipher = otp_key_output_disable a; ram = ram' })
      ])
      else some (pass, s)
    where
      loop : Option (CipherOps.State c × Memory)
      loop =
          decipher_loop (suc codes_length)
            (aes_init (aes_reset (otp_key_output_enable s.cipher)) (replicate 16 0) (replicate 16 0)
              codes_length)
            s.ram 0 codes_length

  -- The reads of the flag and of the length, with the driver opened first.
  unfoldable pub load_header : Machine f c → ℕ → Header × Machine f c
  load_header s flash_addr =
      let (flag, t) =
        flash_read_data f (flash_enable_quad_mode (flash_init 1 s.flash)) flash_addr 1 in
      let (len, u) = flash_read_data f t (u32 (flash_addr + 1)) 4 in
      (
        record { firmware_aes_enabled = get_or flag 0 0; codes_length = word32 len },
        record s { flash = u },
      )

  -- The reads of the codes into RAM, and of the checksum behind them.
  unfoldable pub load_codes : Machine f c → ℕ → ℕ → List ℕ × Machine f c
  load_codes s flash_addr codes_length =
      let (codes, t) = flash_read_data f s.flash (u32 (flash_addr + 5)) codes_length in
      let (sign, u) = flash_read_data f t (u32 (flash_addr + 5 + codes_length)) 32 in
      (sign, record s { flash = u; ram = store s.ram 0 codes })

module _ (f : FlashOps) (c : CipherOps) (accelerator : ℕ → List ℕ → List ℕ) where
  open f use {flash_init, flash_enable_quad_mode}

  -- "Check user data's SHA256 hash"
  unfoldable pub image_digest : Machine f c → Header → List ℕ × Machine f c
  image_digest s h =
      let a = sha256_init 0 0 (u32 (h.codes_length + 5)) s.sha in
      let b = sha256_update a (h.firmware_aes_enabled ∷ []) 1 in
      let d = sha256_update b (bytes_of32 h.codes_length) 4 in
      let e = sha256_update d (span s.ram 0 h.codes_length) h.codes_length in
      let (sign, sha') = sha256_final accelerator e in (sign, record s { sha = sha' })

  -- `flash_image_check`. `none`: it does not return.
  unfoldable pub flash_image_check : Machine f c → ℕ → ℕ → Option (CheckResult × Machine f c)
  flash_image_check s flash_addr length =
      let (h, s1) = load_header f c s flash_addr in
      let (sign_firmware, s2) = load_codes f c s1 flash_addr h.codes_length in
      let (sign, s3) = image_digest s2 h in
      if ltb (u32 (length + 2 ^ 32 - 1 - 4 - 32)) h.codes_length
      then some (oversize, s1)
      else if equal_bytes sign_firmware sign
      then decipher_firmware f c h.firmware_aes_enabled h.codes_length s3
      else some (sha256_mismatch, s3)

  -- The read of the length and the checksum of an image, in `flash_image_compare`.
  unfoldable pub read_sign : FlashOps.State f → ℕ → List ℕ × FlashOps.State f
  read_sign s flash_addr =
      let (len, t) = flash_read_data f s (u32 (flash_addr + 1)) 4 in
      flash_read_data f t (u32 (flash_addr + 5 + word32 len)) 32

  -- `flash_image_compare`: whether `memcmp` returns 0.
  unfoldable pub flash_image_compare : Machine f c → ℕ → ℕ → Bool × Machine f c
  flash_image_compare s flash_addr1 flash_addr2 =
      let (sign1, t) = read_sign s.flash flash_addr1 in
      let (sign2, u) = read_sign t flash_addr2 in (equal_bytes sign1 sign2, record s { flash = u })

  -- `flash_image_backup`. The result of `do_flash_erase` is ignored.
  unfoldable pub flash_image_backup : Machine f c → ℕ → ℕ → Machine f c
  flash_image_backup s from_addr to_addr =
      let (flag, t1) = flash_read_data f s.flash from_addr 1 in
      let (len, t2) = flash_read_data f t1 (u32 (from_addr + 1)) 4 in
      let codes_length = word32 len in
      let n = u32 (codes_length + 32) in
      let (body, t3) = flash_read_data f t2 (u32 (from_addr + 1 + 4)) n in
      let ram' = store s.ram 0 body in
      let (_, t4, keys') = do_flash_erase f t3 to_addr (u32 (1 + 4 + codes_length + 32)) s.keys in
      let t5 = flash_write_data f t4 to_addr flag 1 in
      let t6 = flash_write_data f t5 (u32 (to_addr + 1)) (bytes_of32 codes_length) 4 in
      let t7 = do_flash_write f t6 (u32 (to_addr + 1 + 4)) n (span ram' 0 n) in
      record s { flash = t7; ram = ram'; keys = keys' }

  -- The part of `main` after the two checks.
  unfoldable pub choose_image :
      Layout → CheckResult → CheckResult → Machine f c → Outcome × Machine f c
  choose_image l bak_check app_check s =
      let (same, t) = flash_image_compare s l.app l.bak in
      if same then (outcome_of app_check, t) else (elim app_check [
        | pass ↦ (go_boot, flash_image_backup t l.app l.bak)
        | _ ↦ elim bak_check [
          | pass ↦ (go_boot, flash_image_backup t l.bak l.app)
          | _ ↦ (exit_abnormal, t)
        ]
      ])

  -- `main`: BAK is checked first, so that what RAM holds is APP.
  unfoldable pub main : Layout → Machine f c → Option (Outcome × Machine f c)
  main l s = elim (flash_image_check s l.bak l.next_size) [
    | none ↦ none
    | some (bak_check, s1) ↦ elim (flash_image_check s1 l.app l.next_size) [
      | none ↦ none
      | some (app_check, s2) ↦ some (choose_image l bak_check app_check s2)
    ]
  ]
