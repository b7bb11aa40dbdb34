-- ===== src/Sha256/Padding.antt =====
-- The padding that `sha256_final` of src/drivers/sha256.c feeds, beside that of FIPS 180-4.
use k210_guard_bootloader.Prelude.{
  ℕ, zero, suc, ◌+◌, ◌-◌, ◌*◌, ◌/◌, ◌%◌, ◌≤◌, ◌<◌, ◌≡◌, ◌≢◌, refl, ap, ap₂, ◌∙◌, ◌⊎◌, inl, inr,
  List, [], ◌∷◌, ◌++◌, append_assoc, arith,
}
use k210_guard_bootloader.Prelude.Lists.{
  length, get_or, take, replicate, get_or-append, length-append, length-take, take_all,
}
use k210_guard_bootloader.Prelude.Words.{u64, bytes_of32}
use k210_guard_bootloader.Sha256.{
  Sha, padding, bytes_to_pad, bytes_of64, byteswap64, words_of, finish,
}
use k210_guard_bootloader.Sha256.Byteswap.{bytes_be64, bytes_of64-byteswap64}
use k210_guard_bootloader.Sha256.Round.{Taken}
use k210_guard_bootloader.Sha256.Stream.{
  sha256_update-Taken, fed-Taken, buffer_length-Taken, total_length-Taken,
}

-- What the driver makes of a message of any length.
abbrev pub padded : List ℕ → List ℕ
padded m = (m ++ take (bytes_to_pad (length m % 64)) padding) ++ bytes_be64 (u64 (8 * length m))

-- FIPS 180-4, 5.1.1: a one bit, as few zeros as make up the block, the length in bits.
abbrev pub fips_padded : List ℕ → List ℕ
fips_padded m =
    (m ++ 0x80 ∷ replicate ((119 - length m % 64) % 64) 0) ++ bytes_be64 (u64 (8 * length m))

length-padding : length padding ≡ 64
length-padding = refl

bytes_to_pad_range :
    (r : ℕ)
    → r < 64
    → (1 ≤ bytes_to_pad r) × (bytes_to_pad r ≤ 64) × ((r + bytes_to_pad r) % 64 ≡ 56)
unfolding bytes_to_pad
bytes_to_pad_range r h = ground arith

bytes_to_pad-eq : (r : ℕ) → r < 64 → bytes_to_pad r ≡ suc ((119 - r) % 64)
unfolding bytes_to_pad
bytes_to_pad-eq r h = ground arith

pub length-padded : (m : List ℕ) → length (padded m) ≡ (length m + 72) / 64 * 64
length-padded m = omega (
  arith,
  length-append (m ++ take (bytes_to_pad (length m % 64)) padding)
      (bytes_be64 (u64 (8 * length m))),
  length-append m (take (bytes_to_pad (length m % 64)) padding),
  length-take (bytes_to_pad (length m % 64)) padding,
  length-padding,
  bytes_to_pad_range (length m % 64) (omega arith),
  bytes_to_pad-eq (length m % 64) (omega arith),
)

pub length-words_of : (xs : List ℕ) → length (words_of xs) ≡ length xs / 4
unfolding words_of
length-words_of [] = refl
length-words_of (a ∷ []) = refl
length-words_of (a ∷ b ∷ []) = refl
length-words_of (a ∷ b ∷ c ∷ []) = refl
length-words_of (a ∷ b ∷ c ∷ d ∷ xs) = omega (arith, length-words_of xs)

length-bytes_of64 : (x : ℕ) → length (bytes_of64 x) ≡ 8
unfolding bytes_of64 bytes_of32
length-bytes_of64 x = refl

-- With the padding the message is whole blocks, so all of it is fed.
pub fed-finish : {m : List ℕ} {s : Sha} → Taken m s → (finish s).engine.fed ≡ words_of (padded m)
unfolding finish
fed-finish {m} {s} t =
    fed-Taken (
      sha256_update-Taken length_pad 8 (omega (arith, length-bytes_of64 _))
        (sha256_update-Taken padding n inside t))
    ∙ ap words_of (
        ap (λ l. take (length l / 64 * 64) l) same
        ∙ take_all (length (padded m) / 64 * 64) (padded m) (omega (arith, length-padded m)))
  where
    n : ℕ
    n = bytes_to_pad s.context.buffer_length

    length_pad : List ℕ
    length_pad = bytes_of64 (byteswap64 s.context.total_length)

    inside : n ≤ length padding
    inside = omega (arith, bytes_to_pad_range s.context.buffer_length t.taken.room)

    tail_bytes : take 8 length_pad ≡ bytes_be64 (u64 (8 * length m))
    tail_bytes =
        take_all 8 length_pad (length-bytes_of64 _)
        ∙ ap (λ (x : ℕ). bytes_of64 (byteswap64 x)) (total_length-Taken t)
        ∙ bytes_of64-byteswap64 (u64 (8 * length m)) (omega arith)

    same : (m ++ take n padding) ++ take 8 length_pad ≡ padded m
    same =
        ap₂ (λ (k : ℕ) (l : List ℕ). (m ++ take (bytes_to_pad k) padding) ++ l)
          (buffer_length-Taken t) tail_bytes

pub length-buffer-finish :
    {m : List ℕ} {s : Sha} → Taken m s → length (finish s).context.buffer ≡ 64
unfolding finish
length-buffer-finish {s = s} t =
    (sha256_update-Taken (bytes_of64 (byteswap64 s.context.total_length)) 8
      (omega (arith, length-bytes_of64 _))
      (sha256_update-Taken padding (bytes_to_pad s.context.buffer_length)
        (omega (arith, bytes_to_pad_range s.context.buffer_length t.taken.room)) t)).taken.size

-- The driver's padding is the standard's, up to 62 bytes of it.
take-replicate : (k n : ℕ) (t : List ℕ) → k ≤ n → take k (replicate n 0 ++ t) ≡ replicate k 0
take-replicate zero n t h = refl
take-replicate (suc k) zero t h = absurd (omega arith)
take-replicate (suc k) (suc n) t h = ap (λ l. 0 ∷ l) (take-replicate k n t (omega arith))

-- A message whose length is not 56 or 57 modulo 64 is padded by the driver as the standard has it.
pub padded-eq-fips_padded :
    (m : List ℕ) → length m % 64 ≢ 56 → length m % 64 ≢ 57 → padded m ≡ fips_padded m
padded-eq-fips_padded m h56 h57 =
    ap (λ l. (m ++ l) ++ bytes_be64 (u64 (8 * length m)))
      (ap (λ (k : ℕ). take k padding) (bytes_to_pad-eq (length m % 64) (omega arith))
        ∙ ap (λ l. 0x80 ∷ l)
            (take-replicate ((119 - length m % 64) % 64) 61 (2 ∷ 0 ∷ []) (omega arith)))

at_62 :
    (m mid tail : List ℕ)
    → get_or ((m ++ mid) ++ tail) (length m + 62) 0 ≡ get_or (mid ++ tail) 62 0
at_62 m mid tail =
    ap (λ l. get_or l (length m + 62) 0) (append_assoc m mid tail)
    ∙ get_or-append m (mid ++ tail) 62 0

-- Byte 62 after the message, where the padding is 63 or 64 bytes long: the driver's and the
-- standard's.
driver_62 :
    (m : List ℕ) (k : ℕ)
    → bytes_to_pad (length m % 64) ≡ k
    → (tail : List ℕ)
    → get_or ((m ++ take (bytes_to_pad (length m % 64)) padding) ++ tail) (length m + 62) 0
      ≡ get_or (take k padding ++ tail) 62 0
driver_62 m k e tail =
    at_62 m (take (bytes_to_pad (length m % 64)) padding) tail
    ∙ ap (λ (k : ℕ). get_or (take k padding ++ tail) 62 0) e

fips_62 :
    (m : List ℕ) (k : ℕ)
    → (119 - length m % 64) % 64 ≡ k
    → (tail : List ℕ)
    → get_or ((m ++ 0x80 ∷ replicate ((119 - length m % 64) % 64) 0) ++ tail) (length m + 62) 0
      ≡ get_or ((0x80 ∷ replicate k 0) ++ tail) 62 0
fips_62 m k e tail =
    at_62 m (0x80 ∷ replicate ((119 - length m % 64) % 64) 0) tail
    ∙ ap (λ (k : ℕ). get_or ((0x80 ∷ replicate k 0) ++ tail) 62 0) e

-- A message whose length is 56 or 57 modulo 64 is not padded by the driver as the standard has
-- it.
pub padded-ne-fips_padded :
    (m : List ℕ) → (length m % 64 ≡ 56) ⊎ (length m % 64 ≡ 57) → padded m ≢ fips_padded m
padded-ne-fips_padded m (inl e) same =
    let at = ap (λ l. get_or l (length m + 62) 0) same in
    absurd (
      omega (
        arith,
        at,
        driver_62 m 64 (omega (arith, bytes_to_pad-eq (length m % 64) (omega arith)))
            (bytes_be64 (u64 (8 * length m))),
        fips_62 m 63 (omega arith) (bytes_be64 (u64 (8 * length m))),
      ))
padded-ne-fips_padded m (inr e) same =
    let at = ap (λ l. get_or l (length m + 62) 0) same in
    absurd (
      omega (
        arith,
        at,
        driver_62 m 63 (omega (arith, bytes_to_pad-eq (length m % 64) (omega arith)))
            (bytes_be64 (u64 (8 * length m))),
        fips_62 m 62 (omega arith) (bytes_be64 (u64 (8 * length m))),
      ))
