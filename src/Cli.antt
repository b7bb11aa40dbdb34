-- ===== src/Cli.antt =====
-- The command line of src/cli/cli.c. A string is the list of its characters before the NUL. What is
-- printed, and the debugging output, are left out.
pub mod Arguments
pub mod Commands
pub mod Lookup
pub mod Editing
pub mod Entered
pub mod Orders
pub mod Session
pub mod Tests
use k210_guard_bootloader.Prelude.{
  ℕ, zero, suc, Bool, true, false, not, ◌&&◌, ◌||◌, Option, none, some, List, [], ◌∷◌,
}
use k210_guard_bootloader.Prelude.Tests.{◌==◌, leb, if◌then◌else◌}
use k210_guard_bootloader.Prelude.Lists.{length}
use k210_guard_bootloader.Prelude.Int.{ℤ, pos, negsuc}

-- `CONFIG_SYS_CBSIZE`, `CONFIG_SYS_MAXARGS`
abbrev pub buffer_size : ℕ
buffer_size = 64

abbrev pub max_args : ℕ
max_args = 8

unfoldable pub isblank : ℕ → Bool
isblank c = if c == 0x20 then true else c == 0x09

unfoldable pub skip_blanks : List ℕ → List ℕ
skip_blanks [] = []
skip_blanks (c ∷ cs) = let rest = skip_blanks cs in if isblank c then rest else c ∷ cs

-- The characters of an argument, and the string from its end on.
unfoldable pub argument : List ℕ → List ℕ
argument [] = []
argument (c ∷ cs) = let rest = argument cs in if isblank c then [] else c ∷ rest

unfoldable pub after_argument : List ℕ → List ℕ
after_argument [] = []
after_argument (c ∷ cs) = let rest = after_argument cs in if isblank c then c ∷ cs else rest

-- What is written to `argv`, the strings in place of the pointers and none for NULL. `rest` goes on
-- behind the separator.
unfoldable pub end_argument : (List ℕ → List (Option (List ℕ))) → List ℕ → List (Option (List ℕ))
end_argument rest [] = none ∷ []
end_argument rest (separator ∷ line) = rest line

unfoldable pub begin_argument : (List ℕ → List (Option (List ℕ))) → List ℕ → List (Option (List ℕ))
begin_argument rest [] = none ∷ []
begin_argument rest (c ∷ cs) =
    some (argument (c ∷ cs)) ∷ end_argument rest (after_argument (c ∷ cs))

-- The loop, with the number of arguments that still fit.
unfoldable pub parse_loop : ℕ → List ℕ → List (Option (List ℕ))
parse_loop zero line = []
parse_loop (suc places) line = begin_argument (parse_loop places) (skip_blanks line)

-- `nargs`: what is written other than NULL.
unfoldable pub count : List (Option (List ℕ)) → ℕ
count [] = 0
count (none ∷ argv) = count argv
count (some word ∷ argv) = suc (count argv)

pub record Parsed : Type 0 where
  pub nargs : ℕ
  pub argv : List (Option (List ℕ))

-- `cli_simple_parse_line`
unfoldable pub cli_simple_parse_line : List ℕ → Parsed
cli_simple_parse_line line =
    let argv = parse_loop max_args line in record { nargs = count argv; argv = argv }

-- A command up to its separator, and what is behind the separator where there is one.
pub record Token : Type 0 where
  pub token : List ℕ
  pub more : Option (List ℕ)

-- `inquotes` at a character, from the character before it
unfoldable pub quoting : Bool → ℕ → ℕ → Bool
quoting inquotes before c = if c == 0x27 && not (before == 0x5c) then not inquotes else inquotes

-- The `for` that looks for `sep`
unfoldable pub find_separator : Bool → ℕ → Bool → List ℕ → Token
find_separator inquotes before at_start [] = record { token = []; more = none }
find_separator inquotes before at_start (c ∷ cs) =
    let quoted = quoting inquotes before c in
    let rest = find_separator quoted c false cs in
    if not quoted && c == 0x3b && not at_start && not (before == 0x5c)
    then record { token = []; more = some cs }
    else record { token = c ∷ rest.token; more = rest.more }

unfoldable pub next_pass : Option (List ℕ) → List ℕ
next_pass none = []
next_pass (some str) = str

pub record Run (S : Type 0) : Type 0 where
  pub rc : ℤ
  pub state : S

unfoldable pub is_zero : ℤ → Bool
is_zero (pos n) = n == 0
is_zero (negsuc n) = false

-- `cmd_process` is a function on the state of the machine.
module _ {S : Type 0} (cmd_process : Parsed → S → ℤ × S) where
  -- A command, and `rc` after it
  unfoldable pub process : List ℕ → Run S → Run S
  process token r =
      let parsed = cli_simple_parse_line token in
      let result = cmd_process parsed r.state in
      if parsed.nargs == 0
      then record { rc = negsuc 0; state = r.state }
      else record { rc = if is_zero result.0 then r.rc else negsuc 0; state = result.1 }

  -- The `while`; `before` is the character at `str - 1`, a NUL from the second pass on.
  unfoldable pub command_loop : ℕ → ℕ → List ℕ → Run S → Option (Run S)
  command_loop fuel before [] r = some r
  command_loop zero before (c ∷ cs) r = none
  command_loop (suc fuel) before (c ∷ cs) r =
      let found = find_separator false before true (c ∷ cs) in
      command_loop fuel 0 (next_pass found.more) (process found.token r)

  -- `cli_simple_run_command`, with none for NULL; `below` is the byte in front of `cmdbuf`.
  unfoldable pub cli_simple_run_command : ℕ → Option (List ℕ) → S → Option (Run S)
  cli_simple_run_command below none s = some (record { rc = negsuc 0; state = s })
  cli_simple_run_command below (some []) s = some (record { rc = negsuc 0; state = s })
  cli_simple_run_command below (some (c ∷ cs)) s =
      if leb buffer_size (length (c ∷ cs))
      then some (record { rc = negsuc 0; state = s })
      else command_loop (length (c ∷ cs)) below (c ∷ cs) (record { rc = pos 0; state = s })
