-- ===== src/Sha256/Round.antt =====
-- One round of `sha256_update` of src/drivers/sha256.c, and what it means that the driver has taken
-- a message: the whole blocks are fed to the accelerator, the rest stands at the front of the buffer.
use k210_guard_bootloader.Prelude.{
  ℕ, ◌+◌, ◌-◌, ◌*◌, ◌%◌, ◌≤◌, ◌<◌, min, ◌≡◌, refl, sym, ap, ap₂, ◌∙◌, true, false, List, [], ◌∷◌,
  ◌++◌, append_assoc, arith,
}
use k210_guard_bootloader.Prelude.Tests.{◌==◌}
use k210_guard_bootloader.Prelude.Lists.{
  length, take, drop, length-append, length-take, length-drop, take-append, take_all,
}
use k210_guard_bootloader.Prelude.Words.{u64, word32}
use k210_guard_bootloader.Sha256.{Context, Sha, copy_at, words_of, bytes_to_copy, fill, flush}

-- `s` has taken the message `whole ++ rest`: `whole` is fed, `rest` waits in the buffer.
pub record HasTaken (whole rest : List ℕ) (s : Sha) : Type 0 where
  pub blocks : length whole % 64 ≡ 0
  pub fed : s.engine.fed ≡ words_of whole
  pub pending : take s.context.buffer_length s.context.buffer ≡ rest
  pub count : s.context.buffer_length ≡ length rest
  pub room : s.context.buffer_length < 64
  pub size : length s.context.buffer ≡ 64
  pub total : s.context.total_length ≡ u64 (8 * (length whole + length rest))

-- Some cut of the message `m` is what `s` has taken.
pub record Taken (m : List ℕ) (s : Sha) : Type 0 where
  pub whole : List ℕ
  pub rest : List ℕ
  pub parts : m ≡ whole ++ rest
  pub taken : HasTaken whole rest s

length-copy_at :
    (buf : List ℕ) (i : ℕ) (xs : List ℕ)
    → i + length xs ≤ length buf
    → length (copy_at buf i xs) ≡ length buf
unfolding copy_at
length-copy_at buf i xs h = omega (
  arith,
  length-append (take i buf) (xs ++ drop (i + length xs) buf),
  length-append xs (drop (i + length xs) buf),
  length-take i buf,
  length-drop (i + length xs) buf,
)

take-copy_at :
    (buf : List ℕ) (i n : ℕ) (xs : List ℕ)
    → n ≡ length xs
    → i + n ≤ length buf
    → take (i + n) (copy_at buf i xs) ≡ take i buf ++ xs
unfolding copy_at
take-copy_at buf i n xs e h =
    ap (take (i + n)) (sym (append_assoc (take i buf) xs (drop (i + length xs) buf)))
    ∙ take-append (i + n) (take i buf ++ xs) (drop (i + length xs) buf) size
  where
    size : i + n ≡ length (take i buf ++ xs)
    size = omega (arith, length-append (take i buf) xs, length-take i buf)

words_of-append :
    (xs ys : List ℕ) → length xs % 4 ≡ 0 → words_of (xs ++ ys) ≡ words_of xs ++ words_of ys
unfolding words_of
words_of-append [] ys h = refl
words_of-append (a ∷ []) ys h = absurd (omega arith)
words_of-append (a ∷ b ∷ []) ys h = absurd (omega arith)
words_of-append (a ∷ b ∷ c ∷ []) ys h = absurd (omega arith)
words_of-append (a ∷ b ∷ c ∷ d ∷ xs) ys h =
    ap (λ t. word32 (a ∷ b ∷ c ∷ d ∷ []) ∷ t) (words_of-append xs ys (omega arith))

pub bytes_to_copy_lem :
    (c : Context) (len : ℕ)
    → c.buffer_length < 64
    → bytes_to_copy c len ≡ min len (64 - c.buffer_length)
unfolding bytes_to_copy
bytes_to_copy_lem c len h = ground arith

-- One round: `xs` fits the buffer.
module _ {whole rest : List ℕ} {s : Sha} (h : HasTaken whole rest s) (xs : List ℕ) (n : ℕ)
    (size : n ≡ length xs) (fits : s.context.buffer_length + n ≤ 64) where
  open h use {pending, count, room}

  buffer_length-fill : (fill s.context xs n).buffer_length ≡ s.context.buffer_length + n
  unfolding fill
  buffer_length-fill = omega arith

  length-buffer : length (fill s.context xs n).buffer ≡ 64
  unfolding fill
  length-buffer = omega (
    arith,
    length-copy_at s.context.buffer s.context.buffer_length xs (omega (arith, h.size)),
    h.size,
  )

  take-buffer : take (s.context.buffer_length + n) (fill s.context xs n).buffer ≡ rest ++ xs
  unfolding fill
  take-buffer =
      take-copy_at s.context.buffer s.context.buffer_length n xs size (omega (arith, h.size))
      ∙ ap (λ t. t ++ xs) pending

  total-fill :
      (fill s.context xs n).total_length ≡ u64 (8 * (length whole + (length rest + length xs)))
  unfolding fill
  total-fill = omega (arith, h.total)

  pub step_full :
      s.context.buffer_length + n ≡ 64
      → HasTaken (whole ++ (rest ++ xs)) [] (flush s.engine (fill s.context xs n))
  unfolding flush
  step_full full = rw test (record {
    blocks =
        omega
          (arith, length-append whole (rest ++ xs), length-append rest xs, h.blocks, count, size);
    fed =
        ap₂ ◌++◌ h.fed (ap words_of whole_buffer)
        ∙ sym (words_of-append whole (rest ++ xs) (omega (arith, h.blocks)));
    pending = refl;
    count = refl;
    room = omega arith;
    size = length-buffer;
    total = omega (arith, total-fill, length-append whole (rest ++ xs), length-append rest xs);
  })
    where
      test : ((fill s.context xs n).buffer_length == 64) ≡ true
      test = ground (arith, buffer_length-fill)

      whole_buffer : (fill s.context xs n).buffer ≡ rest ++ xs
      whole_buffer =
          sym (take_all 64 (fill s.context xs n).buffer length-buffer)
          ∙ ap (λ (k : ℕ). take k (fill s.context xs n).buffer) (sym full)
          ∙ take-buffer

  pub step_short :
      s.context.buffer_length + n < 64
      → HasTaken whole (rest ++ xs) (flush s.engine (fill s.context xs n))
  unfolding flush
  step_short short = rw test (record {
    blocks = h.blocks;
    fed = h.fed;
    pending = ap (λ (k : ℕ). take k (fill s.context xs n).buffer) buffer_length-fill ∙ take-buffer;
    count = omega (arith, buffer_length-fill, length-append rest xs);
    room = omega (arith, buffer_length-fill);
    size = length-buffer;
    total = total-fill ∙ ap (λ (k : ℕ). u64 (8 * (length whole + k))) (sym (length-append rest xs));
  })
    where
      test : ((fill s.context xs n).buffer_length == 64) ≡ false
      test = ground (arith, buffer_length-fill)
