-- ===== src/Sha256/Digest.antt =====
-- A whole use of src/drivers/sha256.c: `sha256_init`, some calls of `sha256_update`, `sha256_final`.
use k210_guard_bootloader.Prelude.{
  ℕ, zero, suc, ◌+◌, ◌-◌, ◌*◌, ◌/◌, ◌%◌, ◌^◌, ◌<◌, ◌≡◌, refl, ap, ap₂, ◌∙◌, inl, inr, List, [], ◌∷◌,
  arith,
}
use k210_guard_bootloader.Prelude.Tests.{ltb, ◌==◌, if◌then◌else◌, Bool-cases}
use k210_guard_bootloader.Prelude.Lists.{length, take, drop}
use k210_guard_bootloader.Prelude.Words.{u32}
use k210_guard_bootloader.Sha256.{
  Engine, Context, Sha, padding, bytes_to_copy, bytes_to_pad, fill, flush, words_of, update_loop,
  sha256_init, sha256_update, finish, read_hash, sha256_final,
}
use k210_guard_bootloader.Sha256.Stream.{update_all, joined, update_all-Taken, sha256_init-Taken}
use k210_guard_bootloader.Sha256.Padding.{
  padded, fips_padded, length-padded, length-words_of, fed-finish, padded-eq-fips_padded,
}

sha_data_num-flush : (e : Engine) (c : Context) → (flush e c).engine.sha_data_num ≡ e.sha_data_num
unfolding flush
sha_data_num-flush e c = ground arith

sha_data_num-update_loop :
    (fuel : ℕ) (s : Sha) (bs : List ℕ) (len : ℕ)
    → (update_loop fuel s bs len).engine.sha_data_num ≡ s.engine.sha_data_num
unfolding update_loop
sha_data_num-update_loop zero s bs len = refl
sha_data_num-update_loop (suc fuel) s bs len = elim (Bool-cases (len == 0)) [
  | inl done ↦ rw done
  | inr more ↦ rw more (
      sha_data_num-update_loop fuel _ (drop n bs) (len - n)
      ∙ sha_data_num-flush s.engine (fill s.context (take n bs) n))
]
  where
    n : ℕ
    n = bytes_to_copy s.context len

sha_data_num-update :
    (s : Sha) (bs : List ℕ) (len : ℕ)
    → (sha256_update s bs len).engine.sha_data_num ≡ s.engine.sha_data_num
unfolding sha256_update
sha_data_num-update s bs len = sha_data_num-update_loop len s bs len

sha_data_num-update_all :
    (pieces : List (List ℕ)) (s : Sha)
    → (update_all s pieces).engine.sha_data_num ≡ s.engine.sha_data_num
sha_data_num-update_all [] s = refl
sha_data_num-update_all (bs ∷ pieces) s =
    sha_data_num-update_all pieces (sha256_update s bs (length bs))
    ∙ sha_data_num-update s bs (length bs)

sha_data_num-finish : (s : Sha) → (finish s).engine.sha_data_num ≡ s.engine.sha_data_num
unfolding finish
sha_data_num-finish s =
    sha_data_num-update (sha256_update s padding (bytes_to_pad s.context.buffer_length)) _ 8
    ∙ sha_data_num-update s padding (bytes_to_pad s.context.buffer_length)

sha_data_num-init :
    (size : ℕ) (s : Sha) → (sha256_init 0 0 size s).engine.sha_data_num ≡ u32 (size + 64) / 64
unfolding sha256_init
sha_data_num-init size s = refl

-- The digest of a message that is handed over in pieces.
abbrev pub sha256 : (ℕ → List ℕ → List ℕ) → Sha → List (List ℕ) → List ℕ
sha256 accelerator s pieces =
    (sha256_final accelerator (update_all (sha256_init 0 0 (length (joined pieces)) s) pieces)).0

module _ (accelerator : ℕ → List ℕ → List ℕ) (s : Sha) (pieces : List (List ℕ))
    (buffer : length s.context.buffer ≡ 64) (fits : length (joined pieces) + 64 < 2 ^ 32) where
  -- For a message of n bytes, with n + 64 below 2 ^ 32, and a buffer of 64 bytes, what the accelerator
  -- is told and given depends on the message alone, not on its pieces nor on the state before:
  -- (n + 64) / 64 blocks, and the padded message. The digest is made of its result.
  pub sha256_lem :
      sha256 accelerator s pieces
      ≡ read_hash
          (accelerator ((length (joined pieces) + 64) / 64) (words_of (padded (joined pieces))))
  unfolding sha256_final
  sha256_lem =
      ap₂ (λ (n : ℕ) (ws : List ℕ). read_hash (accelerator n ws)) count
        (fed-finish
          (update_all-Taken pieces (sha256_init-Taken 0 0 (length (joined pieces)) s buffer)))
    where
      t : Sha
      t = update_all (sha256_init 0 0 (length (joined pieces)) s) pieces

      count : (finish t).engine.sha_data_num ≡ (length (joined pieces) + 64) / 64
      count = omega (
        arith,
        sha_data_num-finish t,
        sha_data_num-update_all pieces (sha256_init 0 0 (length (joined pieces)) s),
        sha_data_num-init (length (joined pieces)) s,
      )

  -- For a length below 56 modulo 64, and below 2 ^ 32 - 64, the accelerator is given the standard's
  -- padded message, and is told its number of blocks.
  pub sha256-fips :
      length (joined pieces) % 64 < 56
      → sha256 accelerator s pieces
        ≡ read_hash (
            accelerator
              (length (fips_padded (joined pieces)) / 64)
              (words_of (fips_padded (joined pieces))))
  sha256-fips short =
      sha256_lem
      ∙ ap (λ (n : ℕ). read_hash (accelerator n (words_of (padded (joined pieces))))) blocks
      ∙ ap (λ l. read_hash (accelerator (length l / 64) (words_of l)))
          (padded-eq-fips_padded (joined pieces) (omega arith) (omega arith))
    where
      blocks : (length (joined pieces) + 64) / 64 ≡ length (padded (joined pieces)) / 64
      blocks = omega (arith, length-padded (joined pieces))

-- For a message below 2 ^ 32 - 64 bytes, the words fed are those of `sha_data_num` blocks if its
-- length is below 56 modulo 64, and of one block more otherwise.
pub length-fed :
    (s : Sha) (pieces : List (List ℕ))
    → length s.context.buffer ≡ 64
    → length (joined pieces) + 64 < 2 ^ 32
    → let t = finish (update_all (sha256_init 0 0 (length (joined pieces)) s) pieces) in
      length t.engine.fed
      ≡ 16
        * (if ltb (length (joined pieces) % 64) 56
            then t.engine.sha_data_num
            else t.engine.sha_data_num + 1)
length-fed s pieces buffer fits = ground (
  arith,
  ap length (
      fed-finish
        (update_all-Taken pieces (sha256_init-Taken 0 0 (length (joined pieces)) s buffer))),
  length-words_of (padded (joined pieces)),
  length-padded (joined pieces),
  sha_data_num-finish (update_all (sha256_init 0 0 (length (joined pieces)) s) pieces),
  sha_data_num-update_all pieces (sha256_init 0 0 (length (joined pieces)) s),
  sha_data_num-init (length (joined pieces)) s,
)
