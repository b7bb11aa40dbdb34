-- ===== src/Sha256/Tests.antt =====
-- The driver of src/drivers/sha256.c on a short message.
use k210_guard_bootloader.Prelude.{ℕ, ◌*◌, ◌/◌, ◌≡◌, ◌≢◌, refl, inl, List, [], ◌∷◌, arith}
use k210_guard_bootloader.Prelude.Lists.{length, replicate, take}
use k210_guard_bootloader.Sha256.{Sha, words_of, read_hash, sha256_init, finish}
use k210_guard_bootloader.Sha256.Stream.{update_all, update_all-fed}
use k210_guard_bootloader.Sha256.Padding.{padded, fips_padded, padded-ne-fips_padded}
use k210_guard_bootloader.Sha256.Digest.{sha256, sha256_lem, sha256-fips, length-fed}

abbrev fresh : Sha
fresh = record {
  engine = record {
    fed = [];
    sha_data_num = 0;
    sha_status = 0;
    double_sha = 0;
    sha_input_ctrl = 0;
  };
  context = record { total_length = 0; hash = []; buffer_length = 0; buffer = replicate 64 0 };
}

abbrev accelerator : ℕ → List ℕ → List ℕ
accelerator n words = n ∷ take 7 words

-- a message in two pieces
abbrev pieces : List (List ℕ)
pieces = (97 ∷ 98 ∷ []) ∷ replicate 68 99 ∷ []

abbrev message : List ℕ
message = 97 ∷ 98 ∷ replicate 68 99

update_all-fed_example :
    let t = update_all (sha256_init 0 0 70 fresh) pieces in
    (t.engine.fed ≡ words_of (take 64 message))
    × (t.context.buffer_length ≡ 6)
    × (t.context.total_length ≡ 560)
update_all-fed_example = update_all-fed 70 fresh pieces refl

sha256_lem_example :
    sha256 accelerator fresh pieces ≡ read_hash (accelerator 2 (words_of (padded message)))
sha256_lem_example = sha256_lem accelerator fresh pieces refl (omega arith)

sha256-fips_example :
    sha256 accelerator fresh pieces
    ≡ read_hash (accelerator (length (fips_padded message) / 64) (words_of (fips_padded message)))
sha256-fips_example = sha256-fips accelerator fresh pieces refl (omega arith) (omega arith)

length-fed_example :
    let t = finish (update_all (sha256_init 0 0 70 fresh) pieces) in
    length t.engine.fed ≡ 16 * t.engine.sha_data_num
length-fed_example = length-fed fresh pieces refl (omega arith)

padded-ne-fips_padded_example : padded (replicate 56 97) ≢ fips_padded (replicate 56 97)
padded-ne-fips_padded_example = padded-ne-fips_padded (replicate 56 97) (inl refl)
