-- ===== src/Cli/Arguments.antt =====
-- How `cli_simple_parse_line` of src/cli/cli.c splits a line into arguments.
use k210_guard_bootloader.Prelude.{
  ℕ, zero, suc, ◌+◌, ◌<◌, ◌≡◌, refl, sym, ap, ap₂, ◌∙◌, Bool, true, false, Option, none, some, List,
  [], ◌∷◌, ◌++◌, map, arith,
}
use k210_guard_bootloader.Prelude.Lists.{length}
use k210_guard_bootloader.Cli.{
  isblank, skip_blanks, argument, after_argument, end_argument, begin_argument, parse_loop, count,
  cli_simple_parse_line, max_args,
}

-- Every character is a blank, or none is.
pub data All : Bool → List ℕ → Type 0 where
  nothing : {b : Bool} → All b []
  more : {b : Bool} {c : ℕ} {cs : List ℕ} → isblank c ≡ b → All b cs → All b (c ∷ cs)

-- An argument as it is typed: its characters, the separator behind it, and further blanks.
pub record Typed : Type 0 where
  pub first : ℕ
  pub others : List ℕ
  pub separator : ℕ
  pub gap : List ℕ

pub data AreTyped : List Typed → Type 0 where
  no_more : AreTyped []
  one_more :
      {a : Typed} {args : List Typed}
      → isblank a.first ≡ false
      → All false a.others
      → isblank a.separator ≡ true
      → All true a.gap
      → AreTyped args
      → AreTyped (a ∷ args)

abbrev pub word : Typed → List ℕ
word a = a.first ∷ a.others

-- The line: blanks, the arguments with what is behind each, and a last argument that may be empty.
abbrev pub line_of : List ℕ → List Typed → List ℕ → List ℕ
line_of lead [] last = lead ++ last
line_of lead (a ∷ args) last =
    lead ++ (a.first ∷ (a.others ++ a.separator ∷ line_of a.gap args last))

abbrev pub last_argument : List ℕ → List (Option (List ℕ))
last_argument [] = none ∷ []
last_argument (c ∷ cs) = some (c ∷ cs) ∷ none ∷ []

abbrev pub arguments : List Typed → List (Option (List ℕ))
arguments args = map (λ (a : Typed). some (word a)) args

skip_blanks-append :
    {bs : List ℕ} → All true bs → (cs : List ℕ) → skip_blanks (bs ++ cs) ≡ skip_blanks cs
unfolding skip_blanks
skip_blanks-append nothing cs = refl
skip_blanks-append (more {c} b bs) cs = ground (arith, b, skip_blanks-append bs cs)

skip_blanks-none : {cs : List ℕ} → All false cs → skip_blanks cs ≡ cs
unfolding skip_blanks
skip_blanks-none nothing = refl
skip_blanks-none (more {c} b cs) = ground (arith, b)

argument-append :
    {cs : List ℕ}
    → All false cs
    → (b : ℕ) (rest : List ℕ) → isblank b ≡ true
    → argument (cs ++ b ∷ rest) ≡ cs
unfolding argument
argument-append nothing b rest h = ground (arith, h)
argument-append (more {c} n cs) b rest h = ground (arith, n, argument-append cs b rest h)

after_argument-append :
    {cs : List ℕ}
    → All false cs
    → (b : ℕ) (rest : List ℕ) → isblank b ≡ true
    → after_argument (cs ++ b ∷ rest) ≡ b ∷ rest
unfolding after_argument
after_argument-append nothing b rest h = ground (arith, h)
after_argument-append (more {c} n cs) b rest h =
    ground (arith, n, after_argument-append cs b rest h)

argument-all : {cs : List ℕ} → All false cs → argument cs ≡ cs
unfolding argument
argument-all nothing = refl
argument-all (more {c} n cs) = ground (arith, n, argument-all cs)

after_argument-all : {cs : List ℕ} → All false cs → after_argument cs ≡ []
unfolding after_argument
after_argument-all nothing = refl
after_argument-all (more {c} n cs) = ground (arith, n, after_argument-all cs)

parse_loop-last :
    (places : ℕ) {lead last : List ℕ}
    → All true lead
    → All false last
    → parse_loop (suc places) (lead ++ last) ≡ last_argument last
unfolding parse_loop begin_argument end_argument
parse_loop-last places {last = last} blanks chars =
    ap (begin_argument (parse_loop places))
      (skip_blanks-append blanks last ∙ skip_blanks-none chars)
    ∙ begun chars
  where
    begun :
        {last : List ℕ}
        → All false last
        → begin_argument (parse_loop places) last ≡ last_argument last
    begun nothing = refl
    begun (more {c} {cs} n chars) =
        ap₂ (λ w t. some w ∷ end_argument (parse_loop places) t) (argument-all (more n chars))
          (after_argument-all (more n chars))

-- One argument is taken from the line.
parse_loop-typed :
    (places : ℕ) {lead : List ℕ} (a : Typed) (rest : List ℕ)
    → All true lead
    → isblank a.first ≡ false
    → All false a.others
    → isblank a.separator ≡ true
    → parse_loop (suc places) (lead ++ (a.first ∷ (a.others ++ a.separator ∷ rest)))
      ≡ some (word a) ∷ parse_loop places rest
unfolding parse_loop begin_argument end_argument skip_blanks
parse_loop-typed places a rest blanks first others separator =
    ap (begin_argument (parse_loop places))
      (skip_blanks-append blanks (a.first ∷ (a.others ++ a.separator ∷ rest)) ∙ kept)
    ∙ ap₂ (λ w t. some w ∷ end_argument (parse_loop places) t)
        (argument-append (more first others) a.separator rest separator)
        (after_argument-append (more first others) a.separator rest separator)
  where
    kept :
        skip_blanks (a.first ∷ (a.others ++ a.separator ∷ rest))
        ≡ a.first ∷ (a.others ++ a.separator ∷ rest)
    kept = ground (arith, first)

parse_loop-line :
    (places : ℕ) {lead : List ℕ} (args : List Typed) {last : List ℕ}
    → All true lead
    → AreTyped args
    → All false last
    → length args < places
    → parse_loop places (line_of lead args last) ≡ arguments args ++ last_argument last
parse_loop-line zero args blanks typed chars h = absurd (omega arith)
parse_loop-line (suc places) [] blanks typed chars h = parse_loop-last places blanks chars
parse_loop-line (suc places) (a ∷ args) blanks (one_more first others separator gap typed) chars h =
    parse_loop-typed places a (line_of a.gap args _) blanks first others separator
    ∙ ap (λ t. some (word a) ∷ t) (parse_loop-line places args gap typed chars (omega arith))

parse_loop-full :
    {lead : List ℕ} (args : List Typed) (last : List ℕ)
    → All true lead
    → AreTyped args
    → parse_loop (length args) (line_of lead args last) ≡ arguments args
unfolding parse_loop
parse_loop-full [] last blanks typed = refl
parse_loop-full (a ∷ args) last blanks (one_more first others separator gap typed) =
    parse_loop-typed (length args) a (line_of a.gap args last) blanks first others separator
    ∙ ap (λ t. some (word a) ∷ t) (parse_loop-full args last gap typed)

count-arguments :
    (args : List Typed) (argv : List (Option (List ℕ)))
    → count (arguments args ++ argv) ≡ length args + count argv
unfolding count
count-arguments [] argv = omega arith
count-arguments (a ∷ args) argv = omega (arith, count-arguments args argv)

-- Of a line that starts with any blanks and holds fewer than 8 arguments with blanks behind each,
-- and a last one that may be empty, `cli_simple_parse_line` writes the arguments in order to
-- `argv` and NULL behind them, and returns their number.
pub cli_simple_parse_line-arguments :
    {lead : List ℕ} (args : List Typed) {last : List ℕ}
    → All true lead
    → AreTyped args
    → All false last
    → length args < max_args
    → ((cli_simple_parse_line (line_of lead args last)).argv ≡ arguments args ++ last_argument last)
      × ((cli_simple_parse_line (line_of lead args last)).nargs
          ≡ length args + count (last_argument last))
unfolding cli_simple_parse_line
cli_simple_parse_line-arguments {lead} args {last} blanks typed chars h =
    (split, ap count split ∙ count-arguments args (last_argument last))
  where
    split : parse_loop max_args (line_of lead args last) ≡ arguments args ++ last_argument last
    split = parse_loop-line max_args args blanks typed chars h

-- Of a line with 8 arguments that each have a blank behind them, `cli_simple_parse_line` writes
-- the 8 arguments to `argv` and no NULL, whatever follows.
pub cli_simple_parse_line-full :
    {lead : List ℕ} (args : List Typed) (last : List ℕ)
    → All true lead
    → AreTyped args
    → length args ≡ max_args
    → ((cli_simple_parse_line (line_of lead args last)).argv ≡ arguments args)
unfolding cli_simple_parse_line
cli_simple_parse_line-full {lead} args last blanks typed h =
    ap (λ (n : ℕ). parse_loop n (line_of lead args last)) (sym h)
    ∙ parse_loop-full args last blanks typed
