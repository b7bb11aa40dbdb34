-- ===== src/Cli/Session.antt =====
-- A pass of `cli_simple_loop` of src/cli/cli.c: a line is read and its commands are run.
use k210_guard_bootloader.Prelude.{
  ℕ, zero, suc, ◌-◌, ◌≤◌, ◌≡◌, ap, ◌∙◌, Option, some, List, ◌∷◌, map, ◌++◌, arith,
}
use k210_guard_bootloader.Prelude.Tests.{◌>>=◌}
use k210_guard_bootloader.Prelude.Lists.{length}
use k210_guard_bootloader.Prelude.Int.{ℤ, pos, negsuc}
use k210_guard_bootloader.Cli.{Parsed, cli_simple_run_command, buffer_size}
use k210_guard_bootloader.Cli.Editing.{Entered, cli_readline}
use k210_guard_bootloader.Cli.Entered.{Printable, cli_readline-typed}
use k210_guard_bootloader.Cli.Commands.{
  Command, AreCommands, separated, in_turn, cli_simple_run_command-in_turn,
}
use k210_guard_bootloader.Cli.Lookup.{Functions, cmd_init, cmd_process}
use k210_guard_bootloader.Cli.Orders.{Order, AreOrders, command_of, carried_out, in_turn-orders}

module _ {S : Type 0} where
  -- The line that was entered is copied to `lastcommand`, which has room for all of it.
  unfoldable pub run_entered : (Parsed → S → ℤ × S) → ℕ → ℤ → List ℕ → S → Option S
  run_entered process below (negsuc n) lastcommand s = some s
  run_entered process below (pos zero) lastcommand s = some s
  run_entered process below (pos (suc len)) lastcommand s =
      cli_simple_run_command process below (some lastcommand) s >>= λ r. some r.state

  -- The keys up to the end of a line, over the functions of the commands
  unfoldable pub cli_simple_loop : Functions S → ℕ → List ℕ → S → Option S
  cli_simple_loop f below keys s = cli_readline keys >>= λ r.
      run_entered (cmd_process (cmd_init f)) below r.result r.console_buffer s

  cli_simple_loop-in_turn :
      (f : Functions S) (below : ℕ) (command : Command) (commands : List Command) (keys : List ℕ)
      (s : S)
      → AreCommands (command ∷ commands)
      → Printable (separated (command ∷ commands))
      → length (separated (command ∷ commands)) ≤ buffer_size - 2
      → cli_simple_loop f below (separated (command ∷ commands) ++ 0x0d ∷ keys) s
        ≡ some
            (in_turn
              (cmd_process (cmd_init f))
              (command ∷ commands)
              (record { rc = pos 0; state = s })).state
  unfolding cli_simple_loop run_entered
  cli_simple_loop-in_turn f below command commands keys s plain printable h =
      ap
        (λ (o : Option Entered).
          o >>= λ r. run_entered (cmd_process (cmd_init f)) below r.result r.console_buffer s)
        (cli_readline-typed (separated (command ∷ commands)) keys printable h)
      ∙ ap (λ o. o >>= λ r. some r.state)
          (cli_simple_run_command-in_turn (cmd_process (cmd_init f)) below command commands s plain
            (omega (arith, h)))

  -- A line of at most 62 characters that can be printed, of commands of the table with no more
  -- words than each takes, one space between the words, no blank, quote, semicolon or backslash
  -- in them, and a semicolon behind each command, followed by Enter: `cli_simple_loop` calls
  -- the functions of the commands one after the other, each with its words, ended by NULL, and
  -- their number, whatever byte lies below its buffer.
  pub cli_simple_loop-carried_out :
      (f : Functions S) (below : ℕ) (order : Order) (orders : List Order) (keys : List ℕ) (s : S)
      → AreOrders (order ∷ orders)
      → AreCommands (map command_of (order ∷ orders))
      → Printable (separated (map command_of (order ∷ orders)))
      → length (separated (map command_of (order ∷ orders))) ≤ buffer_size - 2
      → cli_simple_loop f below (separated (map command_of (order ∷ orders)) ++ 0x0d ∷ keys) s
        ≡ some (carried_out f (order ∷ orders) s)
  cli_simple_loop-carried_out f below order orders keys s are plain printable short =
      cli_simple_loop-in_turn f below (command_of order) (map command_of orders) keys s plain
        printable short
      ∙ ap some (in_turn-orders f (order ∷ orders) (record { rc = pos 0; state = s }) are)
