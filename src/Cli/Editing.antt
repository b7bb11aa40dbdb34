-- ===== src/Cli/Editing.antt =====
-- `cli_readline` of src/cli/cli.c: what the keys make of the line. The echo is left out, and with it
-- `col` and the prompt, which serve nothing else. A key is a byte of `uart_getc`.
use k210_guard_bootloader.Prelude.{ℕ, ◌+◌, ◌-◌, Bool, Option, none, some, List, [], ◌∷◌}
use k210_guard_bootloader.Prelude.Tests.{◌==◌, ltb, if◌then◌else◌}
use k210_guard_bootloader.Prelude.Lists.{length}
use k210_guard_bootloader.Prelude.Int.{ℤ, pos, negsuc}
use k210_guard_bootloader.Strto.Ctype.{ismask}
use k210_guard_bootloader.Cli.{buffer_size}

unfoldable pub isprint : ℕ → Bool
isprint c = ismask 0x97 c

-- The characters from `p_buf` to `p`, the last one first, and `n`
pub record Editor : Type 0 where
  pub chars : List ℕ
  pub n : ℕ

unfoldable pub drop_last : List ℕ → List ℕ
drop_last [] = []
drop_last (c ∷ cs) = cs

-- `delete_char`
unfoldable pub delete_char : Editor → Editor
delete_char e = if e.n == 0 then e else record { chars = drop_last e.chars; n = e.n - 1 }

-- The `while` of ^W, at the character that `p` points to, which is the one deleted last
unfoldable pub erase_word_loop : ℕ → List ℕ → ℕ → Editor
erase_word_loop deleted [] n = record { chars = []; n = n }
erase_word_loop deleted (c ∷ cs) n =
    let rest = erase_word_loop c cs (n - 1) in
    if n == 0
    then record { chars = c ∷ cs; n = n }
    else if deleted == 0x20
    then record { chars = c ∷ cs; n = n }
    else rest

-- ^W where there are characters
unfoldable pub erase_from : List ℕ → ℕ → Editor
erase_from [] n = record { chars = []; n = n - 1 }
erase_from (c ∷ cs) n = erase_word_loop c cs (n - 1)

unfoldable pub erase_word : Editor → Editor
erase_word e = if e.n == 0 then e else erase_from e.chars e.n

-- A key that is not special
unfoldable pub insert : ℕ → Editor → Editor
insert c e =
    if isprint c
    then (if ltb e.n (buffer_size - 2) then record { chars = c ∷ e.chars; n = e.n + 1 } else e)
    else e

-- The keys that leave the loop are not here.
unfoldable pub edit : ℕ → Editor → Editor
edit c e =
    if c == 0x00
    then e
    else if c == 0x15
    then record { chars = []; n = 0 }
    else if c == 0x17
    then erase_word e
    else if c == 0x08
    then delete_char e
    else if c == 0x7f
    then delete_char e
    else insert c e

-- What is returned, and the string in `console_buffer`
pub record Entered : Type 0 where
  pub result : ℤ
  pub console_buffer : List ℕ

unfoldable pub onto : List ℕ → List ℕ → List ℕ
onto [] cs = cs
onto (d ∷ ds) cs = onto ds (d ∷ cs)

-- The loop over the keys, with none while it waits for more
unfoldable pub readline_loop : List ℕ → Editor → Option Entered
readline_loop [] e = none
readline_loop (c ∷ keys) e =
    let rest = readline_loop keys (edit c e) in
    if c == 0x0d
    then some (record { result = pos (length e.chars); console_buffer = onto e.chars [] })
    else if c == 0x0a
    then some (record { result = pos (length e.chars); console_buffer = onto e.chars [] })
    else if c == 0x03
    then some (record { result = negsuc 0; console_buffer = [] })
    else rest

unfoldable pub cli_readline : List ℕ → Option Entered
cli_readline keys = readline_loop keys (record { chars = []; n = 0 })
