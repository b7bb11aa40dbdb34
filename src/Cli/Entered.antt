-- ===== src/Cli/Entered.antt =====
-- What can be entered on the command line of src/cli/cli.c.
use k210_guard_bootloader.Prelude.{
  ℕ, ◌+◌, ◌-◌, ◌≤◌, ◌<◌, ◌≡◌, refl, sym, ap, subst, ◌∙◌, ◌⊎◌, inl, inr, Bool, true, false, Option,
  some, List, [], ◌∷◌, ◌++◌, arith,
}
use mathlib.Core.Option.{some-injective, none-ne-some}
use mathlib.Core.Bool.{true≢false}
use k210_guard_bootloader.Prelude.Tests.{◌==◌, ==_iff, ltb, if◌then◌else◌, Bool-cases}
use k210_guard_bootloader.Prelude.Lists.{length}
use k210_guard_bootloader.Prelude.Int.{pos, negsuc}
use k210_guard_bootloader.Strto.Ctype.{ctype, ismask}
use k210_guard_bootloader.Cli.{buffer_size}
use k210_guard_bootloader.Cli.Editing.{
  isprint, Editor, drop_last, delete_char, erase_word_loop, erase_from, erase_word, insert, edit,
  Entered, onto, readline_loop, cli_readline,
}

-- `n` is the number of characters, which leaves room for the NUL, and each can be printed.
pub data Printable : List ℕ → Type 0 where
  nothing : Printable []
  more : {c : ℕ} {cs : List ℕ} → isprint c ≡ true → Printable cs → Printable (c ∷ cs)

pub record IsEdited (e : Editor) : Type 0 where
  pub counted : e.n ≡ length e.chars
  pub fits : e.n ≤ buffer_size - 2
  pub printable : Printable e.chars

drop_last-Printable : {cs : List ℕ} → Printable cs → Printable (drop_last cs)
unfolding drop_last
drop_last-Printable nothing = nothing
drop_last-Printable (more p ps) = ps

length-drop_last : (cs : List ℕ) → length (drop_last cs) ≡ length cs - 1
unfolding drop_last
length-drop_last [] = refl
length-drop_last (c ∷ cs) = omega arith

if-holds :
    {A : Type 0} (P : A → Type 0) (b : Bool) {x y : A}
    → (b ≡ true → P x)
    → P y
    → P (if b then x else y)
if-holds P true first second = first refl
if-holds P false first second = second

delete_char-IsEdited : (e : Editor) → IsEdited e → IsEdited (delete_char e)
unfolding delete_char
delete_char-IsEdited e h =
    if-holds IsEdited (e.n == 0) (λ _. h)
      record {
        counted = omega (arith, h.counted, length-drop_last e.chars);
        fits = omega (arith, h.fits);
        printable = drop_last-Printable h.printable;
      }

without_first :
    {c : ℕ} {cs : List ℕ} {n : ℕ}
    → IsEdited (record { chars = c ∷ cs; n = n })
    → IsEdited (record { chars = cs; n = n - 1 })
unfolding drop_last
without_first {c} {cs} {n} h = record {
  counted = omega (arith, h.counted);
  fits = omega (arith, h.fits);
  printable = drop_last-Printable h.printable;
}

erase_word_loop-IsEdited :
    (deleted : ℕ) (cs : List ℕ) (n : ℕ)
    → IsEdited (record { chars = cs; n = n })
    → IsEdited (erase_word_loop deleted cs n)
unfolding erase_word_loop
erase_word_loop-IsEdited deleted [] n h = h
erase_word_loop-IsEdited deleted (c ∷ cs) n h =
    if-holds IsEdited (n == 0) (λ _. h)
      (if-holds IsEdited (deleted == 0x20) (λ _. h)
        (erase_word_loop-IsEdited c cs (n - 1) (without_first h)))

erase_from-IsEdited :
    (cs : List ℕ) (n : ℕ) → IsEdited (record { chars = cs; n = n }) → IsEdited (erase_from cs n)
unfolding erase_from
erase_from-IsEdited [] n h = record {
  counted = omega (arith, h.counted);
  fits = omega (arith, h.fits);
  printable = nothing;
}
erase_from-IsEdited (c ∷ cs) n h = erase_word_loop-IsEdited c cs (n - 1) (without_first h)

insert-IsEdited : (c : ℕ) (e : Editor) → IsEdited e → IsEdited (insert c e)
unfolding insert
insert-IsEdited c e h =
    if-holds IsEdited (isprint c)
      (λ p.
        if-holds IsEdited (ltb e.n (buffer_size - 2))
          (λ room. record {
            counted = omega (arith, h.counted);
            fits = ground (arith, room);
            printable = more p h.printable;
          })
          h)
      h

edit-IsEdited : (c : ℕ) (e : Editor) → IsEdited e → IsEdited (edit c e)
unfolding edit erase_word
edit-IsEdited c e h =
    if-holds IsEdited (c == 0x00) (λ _. h)
      (if-holds IsEdited (c == 0x15)
        (λ _. record { counted = refl; fits = omega arith; printable = nothing })
        (if-holds IsEdited (c == 0x17)
          (λ _. if-holds IsEdited (e.n == 0) (λ _. h) (erase_from-IsEdited e.chars e.n h))
          (if-holds IsEdited (c == 0x08) (λ _. delete_char-IsEdited e h)
            (if-holds IsEdited (c == 0x7f) (λ _. delete_char-IsEdited e h)
              (insert-IsEdited c e h)))))

onto-Printable : {ds cs : List ℕ} → Printable ds → Printable cs → Printable (onto ds cs)
unfolding onto
onto-Printable nothing cs = cs
onto-Printable (more p ds) cs = onto-Printable ds (more p cs)

length-onto : (ds cs : List ℕ) → length (onto ds cs) ≡ length ds + length cs
unfolding onto
length-onto [] cs = omega arith
length-onto (d ∷ ds) cs = omega (arith, length-onto ds (d ∷ cs))

-- What is entered fits into `console_buffer` with its NUL, and can be printed.
pub record IsEntered (r : Entered) : Type 0 where
  pub fits : length r.console_buffer < buffer_size - 1
  pub printable : Printable r.console_buffer
  pub result :
      (r.result ≡ pos (length r.console_buffer)) ⊎ ((r.result ≡ negsuc 0) × (r.console_buffer ≡ []))

abbrev Whenever : Option Entered → Type 0
Whenever o = (r : Entered) → o ≡ some r → IsEntered r

some-Whenever : {r : Entered} → IsEntered r → Whenever (some r)
some-Whenever {r} h s e = subst IsEntered (some-injective r s e) h

onto-IsEntered :
    (e : Editor)
    → IsEdited e
    → IsEntered (record { result = pos (length e.chars); console_buffer = onto e.chars [] })
onto-IsEntered e h = record {
  fits = omega (arith, h.fits, h.counted, length-onto e.chars []);
  printable = onto-Printable h.printable nothing;
  result = inl (ap pos (omega (arith, length-onto e.chars [])));
}

readline_loop-Whenever : (keys : List ℕ) (e : Editor) → IsEdited e → Whenever (readline_loop keys e)
unfolding readline_loop
readline_loop-Whenever [] e h = λ r absent. absurd (none-ne-some r absent)
readline_loop-Whenever (c ∷ keys) e h =
    if-holds Whenever (c == 0x0d) (λ _. some-Whenever (onto-IsEntered e h))
      (if-holds Whenever (c == 0x0a) (λ _. some-Whenever (onto-IsEntered e h))
        (if-holds Whenever (c == 0x03)
          (λ _.
            some-Whenever
              record { fits = omega arith; printable = nothing; result = inr (refl, refl) })
          (readline_loop-Whenever keys (edit c e) (edit-IsEdited c e h))))

-- Whatever keys make `cli_readline` return: the string in the buffer has at most 62 characters,
-- all of which can be printed, and what is returned is its length, or -1 with an empty string.
pub cli_readline-IsEntered :
    (keys : List ℕ) (r : Entered) → cli_readline keys ≡ some r → IsEntered r
unfolding cli_readline
cli_readline-IsEntered keys =
    readline_loop-Whenever keys (record { chars = []; n = 0 })
      record { counted = refl; fits = omega arith; printable = nothing }

isprint-ne : (c k : ℕ) → isprint c ≡ true → isprint k ≡ false → (c == k) ≡ false
isprint-ne c k p q = elim (Bool-cases (c == k)) [
  | inl same ↦ absurd (true≢false (sym p ∙ ap isprint ((==_iff c k).0 same) ∙ q))
  | inr other ↦ other
]

not_printed :
    (isprint 0x00 ≡ false)
    × (isprint 0x15 ≡ false)
    × (isprint 0x17 ≡ false)
    × (isprint 0x08 ≡ false)
    × (isprint 0x7f ≡ false)
    × (isprint 0x0d ≡ false)
    × (isprint 0x0a ≡ false)
    × (isprint 0x03 ≡ false)
    × (isprint 0x09 ≡ false)
unfolding isprint ismask ctype
not_printed = (refl, refl, refl, refl, refl, refl, refl, refl, refl)

edit-isprint :
    (c : ℕ)
    → isprint c ≡ true
    → (e : Editor) → e.n < buffer_size - 2
    → edit c e ≡ record { chars = c ∷ e.chars; n = e.n + 1 }
unfolding edit insert
edit-isprint c p e h = ground (
  arith,
  p,
  h,
  isprint-ne c 0x00 p not_printed.0,
  isprint-ne c 0x15 p not_printed.1,
  isprint-ne c 0x17 p not_printed.2,
  isprint-ne c 0x08 p not_printed.3,
  isprint-ne c 0x7f p not_printed.4,
)

-- Characters that can be printed and no others, then Enter.

readline_loop-typed :
    (cs : List ℕ) (e : Editor)
    → Printable cs
    → e.n + length cs ≤ buffer_size - 2
    → (keys : List ℕ)
    → readline_loop (cs ++ 0x0d ∷ keys) e
      ≡ some
          (record { result = pos (length cs + length e.chars); console_buffer = onto e.chars cs })
unfolding readline_loop onto
readline_loop-typed [] e p h keys =
    ap (λ (n : ℕ). some (record { result = pos n; console_buffer = onto e.chars [] })) (omega arith)
readline_loop-typed (c ∷ cs) e (more p ps) h keys = ground (
  arith,
  isprint-ne c 0x0d p not_printed.5,
  isprint-ne c 0x0a p not_printed.6,
  isprint-ne c 0x03 p not_printed.7,
  edit-isprint c p e (omega (arith, h)),
  readline_loop-typed cs (record { chars = c ∷ e.chars; n = e.n + 1 }) ps (omega (arith, h)) keys,
)

pub cli_readline-typed :
    (cs keys : List ℕ)
    → Printable cs
    → length cs ≤ buffer_size - 2
    → cli_readline (cs ++ 0x0d ∷ keys)
      ≡ some (record { result = pos (length cs); console_buffer = cs })
unfolding cli_readline onto
cli_readline-typed cs keys p h =
    readline_loop-typed cs (record { chars = []; n = 0 }) p (omega (arith, h)) keys
    ∙ ap (λ (n : ℕ). some (record { result = pos n; console_buffer = cs })) (omega arith)

-- A tab is never part of a line.
edit-tab : (e : Editor) → edit 0x09 e ≡ e
unfolding edit insert
edit-tab e = ground (arith, not_printed.8)
