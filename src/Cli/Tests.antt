-- ===== src/Cli/Tests.antt =====
-- Lines, keys and names on the command line.
use k210_guard_bootloader.Prelude.{
  ℕ, ◌+◌, ◌≡◌, ◌≢◌, refl, sym, ◌∙◌, false, some, List, [], ◌∷◌, ◌++◌, map, arith,
}
use mathlib.Core.Bool.{true≢false}
use k210_guard_bootloader.Prelude.Tests.{◌==◌, ==_iff}
use k210_guard_bootloader.Prelude.Lists.{length}
use k210_guard_bootloader.Prelude.Int.{ℤ, pos}
use k210_guard_bootloader.Strto.Ctype.{ctype, ismask}
use k210_guard_bootloader.Cli.{Parsed, isblank, count, cli_simple_parse_line}
use k210_guard_bootloader.Cli.Arguments.{
  All, Typed, AreTyped, line_of, arguments, last_argument, cli_simple_parse_line-arguments,
  cli_simple_parse_line-full,
}
use k210_guard_bootloader.Cli.Commands.{IsPlain, Plain, Command, AreCommands, separated}
use k210_guard_bootloader.Cli.Lookup.{
  Functions, up_to_dot, starts, find_cmd_tbl, cmd_init, or_else, named, only, beginning,
  find_cmd_tbl-rule,
}
use k210_guard_bootloader.Cli.Editing.{
  isprint, drop_last, delete_char, insert, edit, onto, readline_loop, cli_readline,
}
use k210_guard_bootloader.Cli.Entered.{Printable, IsEntered, cli_readline-IsEntered}
use k210_guard_bootloader.Cli.Orders.{Name, Order, AreWords, AreOrders, command_of}
use k210_guard_bootloader.Cli.Session.{cli_simple_loop, cli_simple_loop-carried_out}

-- Commands that note their number.
abbrev noting : ℕ → Parsed → List ℕ → ℤ × List ℕ
noting k parsed log = (pos 0, k ∷ log)

abbrev functions : Functions (List ℕ)
functions = record {
  do_help = noting 1;
  do_fldump = noting 2;
  do_flread = noting 3;
  do_flwrite = noting 4;
  do_flerase = noting 5;
  do_crc16 = noting 6;
  do_loadb = noting 7;
  do_md = noting 8;
  do_reset = noting 9;
}

-- "md 0" and "reset"
abbrev orders : List Order
orders =
    record { name = Name.md; args = record { first = 48; others = [] } ∷ [] }
    ∷ record { name = Name.reset; args = [] }
    ∷ []

orders-AreOrders : AreOrders orders
unfolding isblank
orders-AreOrders =
    AreOrders.one_order
      (record {
        fits = omega arith;
        are_words = AreWords.one_more refl All.nothing AreWords.no_more;
      })
      (AreOrders.one_order (record { fits = omega arith; are_words = AreWords.no_more })
        AreOrders.no_order)

ne_of_test : (c k : ℕ) → (c == k) ≡ false → c ≢ k
ne_of_test c k h e = true≢false (sym ((==_iff c k).1 e) ∙ h)

plain : (c : ℕ) → (c == 0x27) ≡ false → (c == 0x3b) ≡ false → (c == 0x5c) ≡ false → IsPlain c
plain c p q r = record {
  no_quote = ne_of_test c 0x27 p;
  no_semicolon = ne_of_test c 0x3b q;
  no_backslash = ne_of_test c 0x5c r;
}

abbrev commands : List Command
commands = map command_of orders

commands-AreCommands : AreCommands commands
commands-AreCommands =
    AreCommands.one_more
      (Plain.more (plain 109 refl refl refl) (
        Plain.more (plain 100 refl refl refl) (
          Plain.more (plain 0x20 refl refl refl)
            (Plain.more (plain 48 refl refl refl) Plain.nothing))))
      (AreCommands.one_more
        (Plain.more (plain 114 refl refl refl) (
          Plain.more (plain 101 refl refl refl) (
            Plain.more (plain 115 refl refl refl) (
              Plain.more (plain 101 refl refl refl)
                (Plain.more (plain 116 refl refl refl) Plain.nothing)))))
        AreCommands.no_more)

abbrev md_reset : List ℕ
md_reset = separated commands

md_reset-Printable : Printable md_reset
unfolding isprint ismask ctype
md_reset-Printable = Printable.more refl (
    Printable.more refl (
      Printable.more refl (
        Printable.more refl (
          Printable.more refl (
            Printable.more refl (
              Printable.more refl (
                Printable.more refl (
                  Printable.more refl
                    (Printable.more refl (Printable.more refl Printable.nothing))))))))))

cli_simple_loop-carried_out_example :
    cli_simple_loop functions 0 (md_reset ++ 0x0d ∷ []) [] ≡ some (9 ∷ 8 ∷ [])
cli_simple_loop-carried_out_example =
    cli_simple_loop-carried_out functions 0
      (record { name = Name.md; args = record { first = 48; others = [] } ∷ [] })
      (record { name = Name.reset; args = [] } ∷ []) [] [] orders-AreOrders commands-AreCommands
      md_reset-Printable (omega arith)

-- A letter and a space
abbrev letter : Typed
letter = record { first = 97; others = []; separator = 0x20; gap = [] }

letter-AreTyped : {typed : List Typed} → AreTyped typed → AreTyped (letter ∷ typed)
unfolding isblank
letter-AreTyped rest = AreTyped.one_more refl All.nothing refl All.nothing rest

cli_simple_parse_line-arguments_example :
    ((cli_simple_parse_line (line_of [] (letter ∷ []) [])).argv
      ≡ arguments (letter ∷ []) ++ last_argument [])
    × ((cli_simple_parse_line (line_of [] (letter ∷ []) [])).nargs
        ≡ length (letter ∷ []) + count (last_argument []))
cli_simple_parse_line-arguments_example =
    cli_simple_parse_line-arguments (letter ∷ []) All.nothing (letter-AreTyped AreTyped.no_more)
      All.nothing (omega arith)

abbrev eight : List Typed
eight = letter ∷ letter ∷ letter ∷ letter ∷ letter ∷ letter ∷ letter ∷ letter ∷ []

cli_simple_parse_line-full_example :
    ((cli_simple_parse_line (line_of [] eight (97 ∷ []))).argv ≡ arguments eight)
cli_simple_parse_line-full_example =
    cli_simple_parse_line-full eight (97 ∷ []) All.nothing
      (letter-AreTyped (
        letter-AreTyped (
          letter-AreTyped (
            letter-AreTyped (
              letter-AreTyped
                (letter-AreTyped (letter-AreTyped (letter-AreTyped AreTyped.no_more))))))))
      refl

-- "nd", two deletions, a tab, "md" and Enter
abbrev keys : List ℕ
keys = 110 ∷ 100 ∷ 0x7f ∷ 0x08 ∷ 0x09 ∷ 109 ∷ 100 ∷ 0x0d ∷ []

keys-entered : cli_readline keys ≡ some (record { result = pos 2; console_buffer = 109 ∷ 100 ∷ [] })
unfolding cli_readline readline_loop edit insert isprint ismask ctype delete_char drop_last onto
keys-entered = refl

cli_readline-IsEntered_example :
    IsEntered (record { result = pos 2; console_buffer = 109 ∷ 100 ∷ [] })
cli_readline-IsEntered_example =
    cli_readline-IsEntered keys (record { result = pos 2; console_buffer = 109 ∷ 100 ∷ [] })
      keys-entered

-- "fle" is "flerase", and "fl" is ambiguous.
abbrev fle : List ℕ
fle = 102 ∷ 108 ∷ 101 ∷ []

find_cmd_tbl-rule_example :
    find_cmd_tbl (some fle) (cmd_init functions)
    ≡ or_else
        (named (up_to_dot fle) 0 (cmd_init functions))
        (only (beginning (up_to_dot fle) 0 (cmd_init functions)))
find_cmd_tbl-rule_example = find_cmd_tbl-rule fle (cmd_init functions)

rule-fle :
    or_else
      (named (up_to_dot fle) 0 (cmd_init functions))
      (only (beginning (up_to_dot fle) 0 (cmd_init functions)))
    ≡ some 4
unfolding up_to_dot starts cmd_init
rule-fle = refl
