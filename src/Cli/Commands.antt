-- ===== src/Cli/Commands.antt =====
-- How `cli_simple_run_command` of src/cli/cli.c goes through the commands of a line.
use k210_guard_bootloader.Prelude.{
  ℕ, zero, suc, ◌≤◌, ◌<◌, ◌≡◌, ◌≢◌, refl, ap, ◌∙◌, Bool, true, false, Option, none, some, List, [],
  ◌∷◌, ◌++◌, arith,
}
use k210_guard_bootloader.Prelude.Tests.{leb, if◌then◌else◌}
use k210_guard_bootloader.Prelude.Lists.{length, length-append}
use k210_guard_bootloader.Prelude.Int.{ℤ, pos}
use k210_guard_bootloader.Cli.{
  Parsed, Token, Run, quoting, find_separator, next_pass, process, command_loop,
  cli_simple_run_command, buffer_size,
}

-- A character other than a quote, a semicolon or a backslash.
pub record IsPlain (c : ℕ) : Type 0 where
  pub no_quote : c ≢ 0x27
  pub no_semicolon : c ≢ 0x3b
  pub no_backslash : c ≢ 0x5c

pub data Plain : List ℕ → Type 0 where
  nothing : Plain []
  more : {c : ℕ} {cs : List ℕ} → IsPlain c → Plain cs → Plain (c ∷ cs)

-- Commands that are not empty, the first character apart.
pub record Command : Type 0 where
  pub first : ℕ
  pub others : List ℕ

abbrev pub text : Command → List ℕ
text command = command.first ∷ command.others

pub data AreCommands : List Command → Type 0 where
  no_more : AreCommands []
  one_more :
      {command : Command} {commands : List Command}
      → Plain (text command)
      → AreCommands commands
      → AreCommands (command ∷ commands)

-- The commands, with a semicolon behind each.
abbrev pub separated : List Command → List ℕ
separated [] = []
separated (command ∷ commands) = text command ++ 0x3b ∷ separated commands

find_separator-others :
    {cs : List ℕ}
    → Plain cs
    → (before : ℕ) (rest : List ℕ) → before ≢ 0x5c
    → find_separator false before false (cs ++ 0x3b ∷ rest)
      ≡ record { token = cs; more = some rest }
unfolding find_separator quoting
find_separator-others nothing before rest h = ground (arith, h)
find_separator-others (more {c} {cs} plain chars) before rest h = ground (
  arith,
  plain.no_quote,
  plain.no_semicolon,
  find_separator-others chars c rest plain.no_backslash,
)

find_separator-text :
    (command : Command)
    → Plain (text command)
    → (before : ℕ) (rest : List ℕ)
    → find_separator false before true (text command ++ 0x3b ∷ rest)
      ≡ record { token = text command; more = some rest }
unfolding find_separator quoting
find_separator-text command (more plain chars) before rest =
    ground (arith, plain.no_quote, plain.no_semicolon, found)
  where
    found :
        find_separator false command.first false (command.others ++ 0x3b ∷ rest)
        ≡ record { token = command.others; more = some rest }
    found = find_separator-others chars command.first rest plain.no_backslash

-- What is left is shorter.
find_separator-shorter :
    (quoted : Bool) (before : ℕ) (at_start : Bool) (cs : List ℕ)
    → length (next_pass (find_separator quoted before at_start cs).more) ≤ length cs
unfolding find_separator next_pass
find_separator-shorter quoted before at_start [] = omega arith
find_separator-shorter quoted before at_start (c ∷ cs) =
    ground (arith, find_separator-shorter (quoting quoted before c) c false cs)

find_separator-next :
    (before c : ℕ) (cs : List ℕ)
    → length (next_pass (find_separator false before true (c ∷ cs)).more) ≤ length cs
unfolding find_separator next_pass
find_separator-next before c cs =
    ground (arith, find_separator-shorter (quoting false before c) c false cs)

if-some :
    {A : Type 0} (b : Bool) {o p : Option A}
    → (a : A) × (o ≡ some a)
    → (a : A) × (p ≡ some a)
    → (a : A) × ((if b then o else p) ≡ some a)
if-some true first second = first
if-some false first second = second

module _ {S : Type 0} (cmd_process : Parsed → S → ℤ × S) where
  -- The commands one after the other.
  abbrev pub in_turn : List Command → Run S → Run S
  in_turn [] r = r
  in_turn (command ∷ commands) r = in_turn commands (process cmd_process (text command) r)

  command_loop-returns :
      (fuel before : ℕ) (cs : List ℕ) (r : Run S)
      → length cs ≤ fuel
      → (result : Run S) × (command_loop cmd_process fuel before cs r ≡ some result)
  unfolding command_loop
  command_loop-returns fuel before [] r h = (r, refl)
  command_loop-returns zero before (c ∷ cs) r h = absurd (omega arith)
  command_loop-returns (suc fuel) before (c ∷ cs) r h =
      command_loop-returns fuel 0 _ _ (omega (arith, find_separator-next before c cs))

  command_loop-in_turn :
      (fuel before : ℕ) (commands : List Command) (r : Run S)
      → AreCommands commands
      → length (separated commands) ≤ fuel
      → command_loop cmd_process fuel before (separated commands) r ≡ some (in_turn commands r)
  unfolding command_loop next_pass
  command_loop-in_turn fuel before [] r plain h = refl
  command_loop-in_turn zero before (command ∷ commands) r plain h = absurd (omega arith)
  command_loop-in_turn (suc fuel) before (command ∷ commands) r (one_more plain others) h =
      ap
        (λ (found : Token).
          command_loop cmd_process fuel 0 (next_pass found.more)
            (process cmd_process found.token r))
        (find_separator-text command plain before (separated commands))
      ∙ command_loop-in_turn fuel 0 commands (process cmd_process (text command) r) others
          (omega (arith, length-append command.others (0x3b ∷ separated commands)))

  cli_simple_run_command-returns :
      (below : ℕ) (cmd : Option (List ℕ)) (s : S)
      → (result : Run S) × (cli_simple_run_command cmd_process below cmd s ≡ some result)
  unfolding cli_simple_run_command
  cli_simple_run_command-returns below none s = (_, refl)
  cli_simple_run_command-returns below (some []) s = (_, refl)
  cli_simple_run_command-returns below (some (c ∷ cs)) s =
      if-some (leb buffer_size (length (c ∷ cs))) (_, refl)
        (command_loop-returns (length (c ∷ cs)) below (c ∷ cs) _ (omega arith))

  pub cli_simple_run_command-in_turn :
      (below : ℕ) (command : Command) (commands : List Command) (s : S)
      → AreCommands (command ∷ commands)
      → length (separated (command ∷ commands)) < buffer_size
      → cli_simple_run_command cmd_process below (some (separated (command ∷ commands))) s
        ≡ some (in_turn (command ∷ commands) (record { rc = pos 0; state = s }))
  unfolding cli_simple_run_command
  cli_simple_run_command-in_turn below command commands s plain h = ground (
    arith,
    h,
    command_loop-in_turn (length (separated (command ∷ commands))) below (command ∷ commands)
        (record { rc = pos 0; state = s }) plain (omega arith),
  )
