-- ===== src/Cli/Orders.antt =====
-- What a command line means, apart from src/cli/cli.c and src/cli/command.c: the function of a
-- command is called with its words.
use k210_guard_bootloader.Prelude.{
  ℕ, suc, ◌+◌, ◌≤◌, ◌<◌, ◌≡◌, refl, sym, ap, ap₂, ◌∙◌, false, Option, none, some, List, [], ◌∷◌,
  ◌++◌, map, append-nil, arith,
}
use k210_guard_bootloader.Prelude.Tests.{◌==◌}
use k210_guard_bootloader.Prelude.Lists.{length}
use k210_guard_bootloader.Prelude.Int.{ℤ}
use k210_guard_bootloader.Cli.{Parsed, Run, isblank, count, cli_simple_parse_line, process}
use k210_guard_bootloader.Cli.Arguments.{
  All, Typed, AreTyped, line_of, last_argument, arguments, cli_simple_parse_line-arguments,
}
use k210_guard_bootloader.Cli.Commands.{Command, text, in_turn}
use k210_guard_bootloader.Cli.Lookup.{
  Functions, Entry, command_name, find_cmd_tbl, lookup_loop, up_to_dot, starts, entry_at, cmd_call,
  cmd_init, cmd_process,
}

pub data Name : Type 0 where
  help fldump flread flwrite flerase crc16 loadb md reset : Name

-- A word, its first character apart.
pub record Word : Type 0 where
  pub first : ℕ
  pub others : List ℕ

abbrev pub chars : Word → List ℕ
chars w = w.first ∷ w.others

abbrev pub word_of : Name → Word
word_of help = record { first = 104; others = 101 ∷ 108 ∷ 112 ∷ [] }
word_of fldump = record { first = 102; others = 108 ∷ 100 ∷ 117 ∷ 109 ∷ 112 ∷ [] }
word_of flread = record { first = 102; others = 108 ∷ 114 ∷ 101 ∷ 97 ∷ 100 ∷ [] }
word_of flwrite = record { first = 102; others = 108 ∷ 119 ∷ 114 ∷ 105 ∷ 116 ∷ 101 ∷ [] }
word_of flerase = record { first = 102; others = 108 ∷ 101 ∷ 114 ∷ 97 ∷ 115 ∷ 101 ∷ [] }
word_of crc16 = record { first = 99; others = 114 ∷ 99 ∷ 49 ∷ 54 ∷ [] }
word_of loadb = record { first = 108; others = 111 ∷ 97 ∷ 100 ∷ 98 ∷ [] }
word_of md = record { first = 109; others = 100 ∷ [] }
word_of reset = record { first = 114; others = 101 ∷ 115 ∷ 101 ∷ 116 ∷ [] }

-- The most words that a command takes, its name included.
abbrev pub words_of : Name → ℕ
words_of help = 2
words_of fldump = 3
words_of flread = 4
words_of flwrite = 4
words_of flerase = 3
words_of crc16 = 3
words_of loadb = 2
words_of md = 3
words_of reset = 1

module _ {S : Type 0} where
  abbrev pub function_of : Functions S → Name → Parsed → S → ℤ × S
  function_of f help = f.do_help
  function_of f fldump = f.do_fldump
  function_of f flread = f.do_flread
  function_of f flwrite = f.do_flwrite
  function_of f flerase = f.do_flerase
  function_of f crc16 = f.do_crc16
  function_of f loadb = f.do_loadb
  function_of f md = f.do_md
  function_of f reset = f.do_reset

-- A command with its arguments, and how it is typed: the words with one space between them.
pub record Order : Type 0 where
  pub name : Name
  pub args : List Word

abbrev pub spaced : List Word → List ℕ
spaced [] = []
spaced (w ∷ ws) = 0x20 ∷ w.first ∷ (w.others ++ spaced ws)

abbrev pub command_of : Order → Command
command_of order =
    let w = word_of order.name in record { first = w.first; others = w.others ++ spaced order.args }

pub data AreWords : List Word → Type 0 where
  no_more : AreWords []
  one_more :
      {w : Word} {ws : List Word}
      → isblank w.first ≡ false
      → All false w.others
      → AreWords ws
      → AreWords (w ∷ ws)

-- No more words than the command takes, and no blank in any.
pub record IsOrder (order : Order) : Type 0 where
  pub fits : length order.args < words_of order.name
  pub are_words : AreWords order.args

pub data AreOrders : List Order → Type 0 where
  no_order : AreOrders []
  one_order :
      {order : Order} {orders : List Order}
      → IsOrder order
      → AreOrders orders
      → AreOrders (order ∷ orders)

-- `argc` and `argv` for these words
abbrev pub written : List Word → List (Option (List ℕ))
written [] = none ∷ []
written (w ∷ ws) = some (chars w) ∷ written ws

abbrev pub words : Order → Parsed
words order = record {
  nargs = suc (length order.args);
  argv = some (chars (word_of order.name)) ∷ written order.args;
}

module _ {S : Type 0} where
  -- The functions are called one after the other.
  abbrev pub carried_out : Functions S → List Order → S → S
  carried_out f [] s = s
  carried_out f (order ∷ orders) s =
      carried_out f orders (function_of f order.name (words order) s).1

-- The words as the split of a line has them: all but the last have a separator.
typed_of : Word → List Word → List Typed
typed_of w [] = []
typed_of w (v ∷ ws) =
    record { first = w.first; others = w.others; separator = 0x20; gap = [] } ∷ typed_of v ws

last_of : Word → List Word → List ℕ
last_of w [] = chars w
last_of w (v ∷ ws) = last_of v ws

line_of-typed :
    (w : Word) (ws : List Word)
    → line_of [] (typed_of w ws) (last_of w ws) ≡ w.first ∷ (w.others ++ spaced ws)
unfolding typed_of last_of
line_of-typed w [] = ap (λ l. w.first ∷ l) (sym (append-nil w.others))
line_of-typed w (v ∷ ws) = ap (λ l. w.first ∷ (w.others ++ 0x20 ∷ l)) (line_of-typed v ws)

typed_of-AreTyped : (w : Word) (ws : List Word) → AreWords (w ∷ ws) → AreTyped (typed_of w ws)
unfolding typed_of isblank
typed_of-AreTyped w [] h = AreTyped.no_more
typed_of-AreTyped w (v ∷ ws) (one_more first others rest) =
    AreTyped.one_more first others refl All.nothing (typed_of-AreTyped v ws rest)

last_of-All : (w : Word) (ws : List Word) → AreWords (w ∷ ws) → All false (last_of w ws)
unfolding last_of
last_of-All w [] (one_more first others rest) = All.more first others
last_of-All w (v ∷ ws) (one_more first others rest) = last_of-All v ws rest

arguments-typed :
    (w : Word) (ws : List Word)
    → arguments (typed_of w ws) ++ last_argument (last_of w ws) ≡ some (chars w) ∷ written ws
unfolding typed_of last_of
arguments-typed w [] = refl
arguments-typed w (v ∷ ws) = ap (λ l. some (chars w) ∷ l) (arguments-typed v ws)

count-typed :
    (w : Word) (ws : List Word)
    → length (typed_of w ws) + count (last_argument (last_of w ws)) ≡ suc (length ws)
unfolding typed_of last_of count
count-typed w [] = refl
count-typed w (v ∷ ws) = omega (arith, count-typed v ws)

length-typed : (w : Word) (ws : List Word) → length (typed_of w ws) ≡ length ws
unfolding typed_of
length-typed w [] = refl
length-typed w (v ∷ ws) = ap suc (length-typed v ws)

word_of-AreWords : (name : Name) {ws : List Word} → AreWords ws → AreWords (word_of name ∷ ws)
unfolding isblank
word_of-AreWords help h =
    AreWords.one_more refl (All.more refl (All.more refl (All.more refl (All.nothing)))) h
word_of-AreWords fldump h =
    AreWords.one_more refl
      (All.more refl (All.more refl (All.more refl (All.more refl (All.more refl (All.nothing))))))
      h
word_of-AreWords flread h =
    AreWords.one_more refl
      (All.more refl (All.more refl (All.more refl (All.more refl (All.more refl (All.nothing))))))
      h
word_of-AreWords flwrite h =
    AreWords.one_more refl
      (All.more refl (
        All.more refl
          (All.more refl (All.more refl (All.more refl (All.more refl (All.nothing)))))))
      h
word_of-AreWords flerase h =
    AreWords.one_more refl
      (All.more refl (
        All.more refl
          (All.more refl (All.more refl (All.more refl (All.more refl (All.nothing)))))))
      h
word_of-AreWords crc16 h =
    AreWords.one_more refl
      (All.more refl (All.more refl (All.more refl (All.more refl (All.nothing))))) h
word_of-AreWords loadb h =
    AreWords.one_more refl
      (All.more refl (All.more refl (All.more refl (All.more refl (All.nothing))))) h
word_of-AreWords md h = AreWords.one_more refl (All.more refl (All.nothing)) h
word_of-AreWords reset h =
    AreWords.one_more refl
      (All.more refl (All.more refl (All.more refl (All.more refl (All.nothing))))) h

words_of-le : (name : Name) → words_of name ≤ 4
words_of-le help = omega arith
words_of-le _ = omega arith

not_empty : (n : ℕ) → (suc n == 0) ≡ false
not_empty n = ground arith

-- `cli_simple_parse_line` makes of an order its words.
parsed :
    (order : Order) → IsOrder order → cli_simple_parse_line (text (command_of order)) ≡ words order
unfolding cli_simple_parse_line
parsed order h =
    let w = word_of order.name in
    let are_words = word_of-AreWords order.name h.are_words in
    let (argv, nargs) =
      cli_simple_parse_line-arguments (typed_of w order.args) All.nothing
        (typed_of-AreTyped w order.args are_words) (last_of-All w order.args are_words)
        (omega (arith, length-typed w order.args, h.fits, words_of-le order.name)) in
    ap cli_simple_parse_line (sym (line_of-typed w order.args))
    ∙ ap₂ (λ (n : ℕ) l. record { nargs = n; argv = l }) (nargs ∙ count-typed w order.args)
        (argv ∙ arguments-typed w order.args)

module _ {S : Type 0} (f : Functions S) where
  -- The table has each name once, and with its own function.
  entry_of :
      (name : Name)
      → entry_at (cmd_init f) (find_cmd_tbl (some (chars (word_of name))) (cmd_init f))
        ≡ some (record {
          name = chars (word_of name);
          maxargs = words_of name;
          cmd = function_of f name;
        })
  unfolding entry_at find_cmd_tbl lookup_loop up_to_dot starts cmd_init
  entry_of help = refl
  entry_of _ = refl

  cmd_call-some :
      (e : Entry S) (parsed : Parsed) (s : S)
      → parsed.nargs ≤ e.maxargs
      → (cmd_call (some e) parsed s).1 ≡ (e.cmd parsed s).1
  unfolding cmd_call
  cmd_call-some e parsed s h = ground (arith, h)

  cmd_process-order :
      (order : Order) (s : S)
      → length order.args < words_of order.name
      → (cmd_process (cmd_init f) (words order) s).1 ≡ (function_of f order.name (words order) s).1
  unfolding cmd_process command_name
  cmd_process-order order s h =
      ap (λ e. (cmd_call e (words order) s).1) (entry_of order.name)
      ∙ cmd_call-some
          (record {
            name = chars (word_of order.name);
            maxargs = words_of order.name;
            cmd = function_of f order.name;
          })
          (words order) s (omega (arith, h))

  process-order :
      (order : Order) (r : Run S)
      → IsOrder order
      → (process (cmd_process (cmd_init f)) (text (command_of order)) r).state
        ≡ (function_of f order.name (words order) r.state).1
  unfolding process
  process-order order r h =
      rw (parsed order h, not_empty (length order.args)) (cmd_process-order order r.state h.fits)

  pub in_turn-orders :
      (orders : List Order) (r : Run S)
      → AreOrders orders
      → (in_turn (cmd_process (cmd_init f)) (map command_of orders) r).state
        ≡ carried_out f orders r.state
  in_turn-orders [] r h = refl
  in_turn-orders (order ∷ orders) r (one_order first rest) =
      in_turn-orders orders (process (cmd_process (cmd_init f)) (text (command_of order)) r) rest
      ∙ ap (carried_out f orders) (process-order order r first)
