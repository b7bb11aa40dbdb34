-- ===== src/Sha256.antt =====
-- src/drivers/sha256.c: the driver of the SHA-256 accelerator. It cuts a message into blocks of
-- 64 bytes, writes them to the accelerator word by word, and pads the last one.
pub mod Byteswap
pub mod Round
pub mod Stream
pub mod Padding
pub mod Digest
pub mod Tests
use k210_guard_bootloader.Prelude.{
  ℕ, zero, suc, ◌+◌, ◌-◌, ◌*◌, ◌/◌, ◌%◌, ◌^◌, bit_and, bit_or, Bool, List, [], ◌∷◌, ◌++◌,
}
use k210_guard_bootloader.Prelude.Tests.{ltb, ◌==◌, if◌then◌else◌}
use k210_guard_bootloader.Prelude.Lists.{length, get_or, take, drop, replicate}
use k210_guard_bootloader.Prelude.Words.{u8, u32, u64, bytes_of32, word32}

-- `volatile struct sha256_t`. `fed` holds the words written to `sha_data_in1` since the reset of
-- `sha256_init`, the oldest first. `sha_data_in2` is never written.
pub record Engine : Type 0 where
  pub fed : List ℕ
  pub sha_data_num : ℕ
  pub sha_status : ℕ
  pub double_sha : ℕ
  pub sha_input_ctrl : ℕ

-- `SHA256Context`: `buffer` is the union's view as 64 bytes.
pub record Context : Type 0 where
  pub total_length : ℕ
  pub hash : List ℕ
  pub buffer_length : ℕ
  pub buffer : List ℕ

pub record Sha : Type 0 where
  pub engine : Engine
  pub context : Context

-- `ROTR`, `ROTL`, `_BYTESWAP` at a `uint32_t` and `__byteswap64`
unfoldable pub rotr : ℕ → ℕ → ℕ
rotr x n = bit_or (x / 2 ^ n) (u32 (x * 2 ^ (32 - n)))

unfoldable pub rotl : ℕ → ℕ → ℕ
rotl x n = bit_or (u32 (x * 2 ^ n)) (x / 2 ^ (32 - n))

unfoldable pub byteswap : ℕ → ℕ
unfolding rotr rotl
byteswap x = bit_or (bit_and (rotr x 8) 0xff00ff00) (bit_and (rotl x 8) 0x00ff00ff)

unfoldable pub byteswap64 : ℕ → ℕ
unfolding byteswap
byteswap64 x =
    let a = u32 (x / 2 ^ 32) in let b = u32 x in bit_or (byteswap b * 2 ^ 32) (byteswap a)

-- `static const uint8_t padding[64]`
abbrev pub padding : List ℕ
padding = 0x80 ∷ replicate 61 0 ++ 0x02 ∷ 0x00 ∷ []

abbrev pub initial_hash : List ℕ
initial_hash =
    0x6a09e667 ∷ 0xbb67ae85 ∷ 0x3c6ef372 ∷ 0xa54ff53a ∷ 0x510e527f ∷ 0x9b05688c ∷ 0x1f83d9ab
    ∷ 0x5be0cd19 ∷ []

-- `sha256_init`. `sysctl_reset` empties the accelerator, and leaves its other registers at `e`;
-- the context's buffer holds whatever was there. `&= !1` clears the whole register.
unfoldable pub sha256_init : ℕ → ℕ → ℕ → Sha → Sha
sha256_init dma_en double_sha_en input_size s = record {
  engine = record {
    fed = [];
    sha_data_num = u32 (input_size + 64) / 64;
    sha_status = bit_or (bit_or e.sha_status 0x10000) 1;
    double_sha = if double_sha_en == 0 then e.double_sha else bit_or e.double_sha 1;
    sha_input_ctrl = if dma_en == 0 then bit_and e.sha_input_ctrl 0 else bit_or e.sha_input_ctrl 1;
  };
  context = record {
    total_length = 0;
    hash = initial_hash;
    buffer_length = 0;
    buffer = s.context.buffer;
  };
}
  where
    open s use {engine as e}

-- `memcpy` into an array at an index
unfoldable pub copy_at : List ℕ → ℕ → List ℕ → List ℕ
copy_at buf i xs = take i buf ++ (xs ++ drop (i + length xs) buf)

-- an array of bytes read as an array of `uint32_t`
unfoldable pub words_of : List ℕ → List ℕ
words_of (b0 ∷ b1 ∷ b2 ∷ b3 ∷ bs) = word32 (b0 ∷ b1 ∷ b2 ∷ b3 ∷ []) ∷ words_of bs
words_of _ = []

-- `bytesToCopy` of a round of `sha256_update`
unfoldable pub bytes_to_copy : Context → ℕ → ℕ
bytes_to_copy c len =
    let left = u32 (64 + 2 ^ 32 - c.buffer_length) in if ltb len left then len else left

-- The copy of a round, before the test for a full buffer.
unfoldable pub fill : Context → List ℕ → ℕ → Context
fill c xs n = record c {
  total_length = u64 (c.total_length + n * 8);
  buffer_length = u32 (c.buffer_length + n);
  buffer = copy_at c.buffer c.buffer_length xs;
}

-- The test for a full buffer: its sixteen words go to the accelerator.
unfoldable pub flush : Engine → Context → Sha
flush e c =
    if c.buffer_length == 64
    then record {
      engine = record e { fed = e.fed ++ words_of c.buffer };
      context = record c { buffer_length = 0 };
    }
    else record { engine = e; context = c }

-- The loop of `sha256_update`, on fuel; each round copies a byte at least.
unfoldable pub update_loop : ℕ → Sha → List ℕ → ℕ → Sha
update_loop zero s bs len = s
update_loop (suc fuel) s bs len =
    let n = bytes_to_copy s.context len in
    let rest =
      update_loop fuel (flush s.engine (fill s.context (take n bs) n)) (drop n bs) (len - n) in
    if len == 0 then s else rest

-- `sha256_update`
unfoldable pub sha256_update : Sha → List ℕ → ℕ → Sha
unfolding update_loop
sha256_update s bs len = update_loop len s bs len

-- `bytesToPad` of `sha256_final`, where the buffer is not full
unfoldable pub bytes_to_pad : ℕ → ℕ
bytes_to_pad buffer_length =
    let n = u32 (120 + 2 ^ 32 - buffer_length) in if ltb 64 n then n - 64 else n

-- the eight bytes of a `uint64_t` in memory, lowest first
unfoldable pub bytes_of64 : ℕ → List ℕ
bytes_of64 x = bytes_of32 (u32 x) ++ bytes_of32 (x / 2 ^ 32)

-- `sha256_final` up to the wait for the accelerator: what is padded and fed.
unfoldable pub finish : Sha → Sha
finish s =
    let length_pad = bytes_of64 (byteswap64 s.context.total_length) in
    sha256_update (sha256_update s padding (bytes_to_pad s.context.buffer_length)) length_pad 8

-- The copy of the result: the words in reverse order, each in memory order.
unfoldable pub read_hash : List ℕ → List ℕ
read_hash [] = []
read_hash (w ∷ ws) = read_hash ws ++ bytes_of32 w

-- `sha256_final`. `accelerator n words` is the content of `sha_result` once the accelerator, told
-- to expect `n` blocks, has taken `words`.
unfoldable pub sha256_final : (ℕ → List ℕ → List ℕ) → Sha → List ℕ × Sha
sha256_final accelerator s =
    let t = finish s in (read_hash (accelerator t.engine.sha_data_num t.engine.fed), t)
