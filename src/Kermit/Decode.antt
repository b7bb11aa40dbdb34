-- ===== src/Kermit/Decode.antt =====
-- The decoding of data in src/cli/load.c against the quoting of a sender.
use k210_guard_bootloader.Prelude.{
  ℕ, ◌+◌, ◌%◌, ◌<◌, bit_xor, ◌≡◌, refl, sym, ap, ap₂, ◌∙◌, Bool, true, false, ◌||◌, not, inl, inr,
  List, [], ◌∷◌, ◌++◌, arith,
}
use k210_guard_bootloader.Prelude.Tests.{◌==◌, ltb, if◌then◌else◌, Bool-cases}
use k210_guard_bootloader.Prelude.Bits.{every_below, every_below-at}
use k210_guard_bootloader.Prelude.Lists.{length}
use k210_guard_bootloader.Prelude.Memory.{Memory, store, store-append, store-nil}
use k210_guard_bootloader.Flash.Chip.{all_bytes}
use k210_guard_bootloader.Kermit.{ktrans, Data, bin_data_char, with_escape, k_data_char}

-- What a sender makes of a byte: control characters, and the quote itself, are quoted.
abbrev pub is_control : ℕ → Bool
is_control b = ltb (b % 128) 0x20 || (b % 128 == 0x7f)

unfoldable pub quoted : ℕ → ℕ → List ℕ
quoted q b = if is_control b then q ∷ bit_xor b 0x40 ∷ [] else if b == q then q ∷ q ∷ [] else b ∷ []

unfoldable pub encoded : ℕ → List ℕ → List ℕ
encoded q [] = []
encoded q (b ∷ bs) = quoted q b ++ encoded q bs

unfoldable pub data_chars : ℕ → List ℕ → Data → Data
data_chars q [] d = d
data_chars q (c ∷ cs) d = data_chars q cs (k_data_char q c d)

abbrev pub at : Memory → ℕ → Data
at m a = record { ram = m; point = record { k_data_escape = false; os_data_addr = a } }

table : every_below (λ b. not (is_control b) || (ktrans (bit_xor b 0x40) == b)) 256 ≡ true
unfolding every_below ktrans
table = refl

control-ktrans : (b : ℕ) → b < 256 → is_control b ≡ true → ktrans (bit_xor b 0x40) ≡ b
control-ktrans b h c = ground (arith, every_below-at _ 256 table b h, c)

bin_data_char-at :
    (b : ℕ) (m : Memory) (a : ℕ) → bin_data_char b (at m a) ≡ at (store m a (b ∷ [])) (a + 1)
unfolding bin_data_char
bin_data_char-at b m a = refl

module _ (q : ℕ) (literal : ktrans q ≡ q) where
  quote_self : (q == q) ≡ true
  quote_self = ground arith

  one :
      (b : ℕ) (m : Memory) (a : ℕ)
      → b < 256
      → data_chars q (quoted q b) (at m a) ≡ bin_data_char b (at m a)
  unfolding data_chars quoted k_data_char bin_data_char with_escape
  one b m a h = elim (Bool-cases (is_control b)) [
    | inl control ↦ rw (control, quote_self, control-ktrans b h control) refl
    | inr plain ↦ elim (Bool-cases (b == q)) [
      | inl same ↦
          let q_b : q ≡ b = ground (arith, same) in
          rw (plain, same, quote_self, literal) (ap (λ (x : ℕ). bin_data_char x (at m a)) q_b)
      | inr other ↦ rw (plain, other, other) refl
    ]
  ]

  data_chars-append :
      (xs ys : List ℕ) (d : Data) → data_chars q (xs ++ ys) d ≡ data_chars q ys (data_chars q xs d)
  unfolding data_chars
  data_chars-append [] ys d = refl
  data_chars-append (x ∷ xs) ys d = data_chars-append xs ys (k_data_char q x d)

  -- x
  pub data_chars-encoded :
      (bs : List ℕ) (m : Memory) (a : ℕ)
      → all_bytes bs ≡ true
      → data_chars q (encoded q bs) (at m a) ≡ at (store m a bs) (a + length bs)
  unfolding encoded data_chars
  data_chars-encoded [] m a h =
      ap₂ (λ (k : Memory) (x : ℕ). at k x) (sym (store-nil m a)) (omega arith)
  data_chars-encoded (b ∷ bs) m a h =
      data_chars-append (quoted q b) (encoded q bs) (at m a)
      ∙ ap (data_chars q (encoded q bs)) (one b m a (ground (arith, h)) ∙ stored)
      ∙ data_chars-encoded bs (store m a (b ∷ [])) (a + 1) (ground (arith, h))
      ∙ ap₂ (λ (k : Memory) (x : ℕ). at k x) (store-append m a (b ∷ []) bs) (omega arith)
    where
      stored : bin_data_char b (at m a) ≡ at (store m a (b ∷ [])) (a + 1)
      stored = bin_data_char-at b m a
