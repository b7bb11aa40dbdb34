-- ===== src/Sha256/Stream.antt =====
-- What src/drivers/sha256.c has fed to the accelerator after any calls of `sha256_update`: the
-- whole blocks of the message so far. The rest stands at the front of the buffer.
use k210_guard_bootloader.Prelude.{
  ℕ, zero, suc, ◌+◌, ◌-◌, ◌*◌, ◌/◌, ◌%◌, ◌≤◌, ◌<◌, min, ◌≡◌, refl, sym, ap, subst, ◌∙◌, ◌⊎◌, inl,
  inr, List, [], ◌∷◌, ◌++◌, append-nil, append_assoc, arith,
}
use k210_guard_bootloader.Prelude.Tests.{◌==◌, Bool-cases}
use k210_guard_bootloader.Prelude.Lists.{
  length, take, drop, length-append, length-take, length-drop, take-append, take-add, take_all,
}
use k210_guard_bootloader.Prelude.Words.{u64}
use k210_guard_bootloader.Sha256.{
  Sha, words_of, bytes_to_copy, fill, flush, update_loop, sha256_update, sha256_init,
}
use k210_guard_bootloader.Sha256.Round.{Taken, bytes_to_copy_lem, step_full, step_short}

round-Taken :
    {m : List ℕ} {s : Sha} (bs : List ℕ) (len : ℕ)
    → len ≤ length bs
    → Taken m s
    → let n = bytes_to_copy s.context len in
      Taken (m ++ take n bs) (flush s.engine (fill s.context (take n bs) n))
round-Taken {m} {s} bs len enough t = elim (cases_le (s.context.buffer_length + n)) [
  | inl full ↦ record {
    whole = t.whole ++ (t.rest ++ take n bs);
    rest = [];
    parts = joined ∙ sym (append-nil _);
    taken = step_full t.taken (take n bs) n size fits full;
  }
  | inr short ↦ record {
    whole = t.whole;
    rest = t.rest ++ take n bs;
    parts = joined;
    taken = step_short t.taken (take n bs) n size fits (short fits);
  }
]
  where
    n : ℕ
    n = bytes_to_copy s.context len

    n_min : n ≡ min len (64 - s.context.buffer_length)
    n_min = bytes_to_copy_lem s.context len t.taken.room

    size : n ≡ length (take n bs)
    size = omega (arith, length-take n bs, n_min)

    fits : s.context.buffer_length + n ≤ 64
    fits = omega (arith, n_min, t.taken.room)

    joined : m ++ take n bs ≡ t.whole ++ (t.rest ++ take n bs)
    joined = ap (λ l. l ++ take n bs) t.parts ∙ append_assoc t.whole t.rest (take n bs)

    cases_le : (k : ℕ) → (k ≡ 64) ⊎ (k ≤ 64 → k < 64)
    cases_le k = elim (Bool-cases (k == 64)) [
      | inl e ↦ inl (ground arith)
      | inr e ↦ inr (λ p. ground arith)
    ]

Taken-nil :
    {m : List ℕ} {s : Sha} (bs : List ℕ) (len : ℕ)
    → len ≡ 0
    → Taken m s
    → Taken (m ++ take len bs) s
Taken-nil {m} {s} bs len e t =
    subst (λ (k : ℕ). Taken (m ++ take k bs) s) (sym e)
      (subst (λ l. Taken l s) (sym (append-nil m)) t)

update_loop-Taken :
    (fuel : ℕ) {m : List ℕ} {s : Sha} (bs : List ℕ) (len : ℕ)
    → len ≤ fuel
    → len ≤ length bs
    → Taken m s
    → Taken (m ++ take len bs) (update_loop fuel s bs len)
unfolding update_loop
update_loop-Taken zero bs len enough_fuel enough t = Taken-nil bs len (omega arith) t
update_loop-Taken (suc fuel) {m} {s} bs len enough_fuel enough t = elim (Bool-cases (len == 0)) [
  | inl done ↦ rw done (Taken-nil bs len (ground arith) t)
  | inr more ↦ rw more (
      subst (λ l. Taken l rest) regroup
        (update_loop-Taken fuel (drop n bs) (len - n) (left (ground arith)) inside
          (round-Taken bs len enough t)))
]
  where
    n : ℕ
    n = bytes_to_copy s.context len

    n_min : n ≡ min len (64 - s.context.buffer_length)
    n_min = bytes_to_copy_lem s.context len t.taken.room

    rest : Sha
    rest = update_loop fuel (flush s.engine (fill s.context (take n bs) n)) (drop n bs) (len - n)

    left : 0 < len → len - n ≤ fuel
    left p = omega (arith, n_min, t.taken.room)

    inside : len - n ≤ length (drop n bs)
    inside = omega (arith, length-drop n bs)

    regroup : (m ++ take n bs) ++ take (len - n) (drop n bs) ≡ m ++ take len bs
    regroup =
        append_assoc m (take n bs) (take (len - n) (drop n bs))
        ∙ ap (λ l. m ++ l) (sym (take-add n (len - n) bs) ∙ ap (λ (k : ℕ). take k bs) whole_len)
      where
        whole_len : n + (len - n) ≡ len
        whole_len = omega (arith, n_min)

-- `sha256_update` appends `len` bytes to the message.
pub sha256_update-Taken :
    {m : List ℕ} {s : Sha} (bs : List ℕ) (len : ℕ)
    → len ≤ length bs
    → Taken m s
    → Taken (m ++ take len bs) (sha256_update s bs len)
unfolding sha256_update
sha256_update-Taken bs len enough t = update_loop-Taken len bs len (omega arith) enough t

-- `sha256_init` starts the empty message, in a buffer of any content.
pub sha256_init-Taken :
    (dma_en double_sha_en input_size : ℕ) (s : Sha)
    → length s.context.buffer ≡ 64
    → Taken [] (sha256_init dma_en double_sha_en input_size s)
unfolding sha256_init words_of
sha256_init-Taken dma_en double_sha_en input_size s size = record {
  whole = [];
  rest = [];
  parts = refl;
  taken = record {
    blocks = refl;
    fed = refl;
    pending = refl;
    count = refl;
    room = omega arith;
    size = size;
    total = refl;
  };
}

-- The cut is at the last multiple of 64.
module _ {m : List ℕ} {s : Sha} (t : Taken m s) where
  length-parts : length m ≡ length t.whole + length t.rest
  length-parts = ap length t.parts ∙ length-append t.whole t.rest

  pub buffer_length-Taken : s.context.buffer_length ≡ length m % 64
  buffer_length-Taken = omega (arith, length-parts, t.taken.count, t.taken.room, t.taken.blocks)

  pub fed-Taken : s.engine.fed ≡ words_of (take (length m / 64 * 64) m)
  fed-Taken =
      t.taken.fed
      ∙ ap words_of (
          sym (take-append (length m / 64 * 64) t.whole t.rest cut)
          ∙ ap (take (length m / 64 * 64)) (sym t.parts))
    where
      cut : length m / 64 * 64 ≡ length t.whole
      cut = omega (arith, length-parts, t.taken.count, t.taken.room, t.taken.blocks)

  pub total_length-Taken : s.context.total_length ≡ u64 (8 * length m)
  total_length-Taken = omega (arith, t.taken.total, length-parts)

-- A message in pieces, a call of `sha256_update` for each.
abbrev pub update_all : Sha → List (List ℕ) → Sha
update_all s [] = s
update_all s (bs ∷ pieces) = update_all (sha256_update s bs (length bs)) pieces

abbrev pub joined : List (List ℕ) → List ℕ
joined [] = []
joined (bs ∷ pieces) = bs ++ joined pieces

pub update_all-Taken :
    (pieces : List (List ℕ)) {m : List ℕ} {s : Sha}
    → Taken m s
    → Taken (m ++ joined pieces) (update_all s pieces)
update_all-Taken [] {m} {s} t = subst (λ l. Taken l s) (sym (append-nil m)) t
update_all-Taken (bs ∷ pieces) {m} {s} t =
    subst (λ l. Taken l (update_all s (bs ∷ pieces)))
      (ap (λ l. (m ++ l) ++ joined pieces) (take_all (length bs) bs refl)
        ∙ append_assoc m bs (joined pieces))
      (update_all-Taken pieces (sha256_update-Taken bs (length bs) (omega arith) t))

-- From a buffer of 64 bytes, however a message is cut into calls of `sha256_update`, the
-- accelerator has been fed the words of its whole 64-byte blocks and no others, as many bytes as
-- remain are in the buffer, and the length is counted in bits.
pub update_all-fed :
    (input_size : ℕ) (s : Sha) (pieces : List (List ℕ))
    → length s.context.buffer ≡ 64
    → let m = joined pieces in
      let t = update_all (sha256_init 0 0 input_size s) pieces in
      (t.engine.fed ≡ words_of (take (length m / 64 * 64) m))
      × (t.context.buffer_length ≡ length m % 64)
      × (t.context.total_length ≡ u64 (8 * length m))
update_all-fed input_size s pieces size =
    let t = update_all-Taken pieces (sha256_init-Taken 0 0 input_size s size) in
    (fed-Taken t, buffer_length-Taken t, total_length-Taken t)
