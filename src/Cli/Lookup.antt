-- ===== src/Cli/Lookup.antt =====
-- The commands of src/cli/command.c by name: `find_cmd_tbl` and `cmd_process`. A pointer into the
-- table is an index.
use k210_guard_bootloader.Prelude.{
  ℕ, zero, suc, ◌+◌, ◌≡◌, refl, sym, ap, ◌∙◌, Bool, true, false, ◌&&◌, Option, none, some, List, [],
  ◌∷◌, ◌++◌, append-nil, append_assoc, inl, inr, arith,
}
use k210_guard_bootloader.Prelude.Tests.{◌==◌, ltb, if◌then◌else◌, Bool-cases}
use k210_guard_bootloader.Prelude.Lists.{length, length-append, get_elem?}
use k210_guard_bootloader.Prelude.Int.{ℤ, pos, negsuc}
use k210_guard_bootloader.Cli.{Parsed}

-- `struct cmd_tbl_s`
pub record Entry (S : Type 0) : Type 0 where
  pub name : List ℕ
  pub maxargs : ℕ
  pub cmd : Parsed → S → ℤ × S

-- The functions that the table of commands points to.
pub record Functions (S : Type 0) : Type 0 where
  pub do_help : Parsed → S → ℤ × S
  pub do_fldump : Parsed → S → ℤ × S
  pub do_flread : Parsed → S → ℤ × S
  pub do_flwrite : Parsed → S → ℤ × S
  pub do_flerase : Parsed → S → ℤ × S
  pub do_crc16 : Parsed → S → ℤ × S
  pub do_loadb : Parsed → S → ℤ × S
  pub do_md : Parsed → S → ℤ × S
  pub do_reset : Parsed → S → ℤ × S

-- The name up to its first dot
unfoldable pub up_to_dot : List ℕ → List ℕ
up_to_dot [] = []
up_to_dot (c ∷ cs) = let rest = up_to_dot cs in if c == 0x2e then [] else c ∷ rest

-- `strncmp(cmd, name, len) == 0`, with the `len` characters of `cmd`
unfoldable pub starts : List ℕ → List ℕ → Bool
starts [] name = true
starts (c ∷ cs) [] = false
starts (c ∷ cs) (d ∷ name) = let rest = starts cs name in if c == d then rest else false

module _ {S : Type 0} where
  -- The loop at `i`, with `n_found` and the index of `cmdtp_temp`
  unfoldable pub lookup_loop : List ℕ → ℕ → ℕ → ℕ → List (Entry S) → Option ℕ
  lookup_loop key i n_found temp [] = if n_found == 1 then some temp else none
  lookup_loop key i n_found temp (e ∷ table) =
      let abbreviated = starts key e.name in
      let rest =
        lookup_loop key (i + 1) (if abbreviated then n_found + 1 else n_found)
          (if abbreviated then i else temp) table in
      if abbreviated && length key == length e.name then some i else rest

  -- `find_cmd_tbl`, with none for NULL
  unfoldable pub find_cmd_tbl : Option (List ℕ) → List (Entry S) → Option ℕ
  find_cmd_tbl none table = none
  find_cmd_tbl (some cmd) table = lookup_loop (up_to_dot cmd) 0 0 0 table

-- `argv[0]`
unfoldable pub command_name : List (Option (List ℕ)) → Option (List ℕ)
command_name [] = none
command_name (word ∷ argv) = word

-- The result of a command; `CMD_RET_USAGE` is -1, and `cmd_usage` returns 1.
unfoldable pub usage : ℤ → ℤ
usage (pos rc) = pos rc
usage (negsuc zero) = pos 1
usage (negsuc (suc n)) = negsuc (suc n)

module _ {S : Type 0} where
  unfoldable pub cmd_call : Option (Entry S) → Parsed → S → ℤ × S
  cmd_call none parsed s = (pos 1, s)
  cmd_call (some e) parsed s =
      let result = e.cmd parsed s in
      if ltb e.maxargs parsed.nargs then (usage (negsuc 0), s) else (usage result.0, result.1)

  unfoldable pub entry_at : List (Entry S) → Option ℕ → Option (Entry S)
  entry_at table none = none
  entry_at table (some i) = get_elem? table i

  -- `cmd_init` over the functions of the nine commands
  unfoldable pub cmd_init : Functions S → List (Entry S)
  cmd_init f =
      record { name = 104 ∷ 101 ∷ 108 ∷ 112 ∷ []; maxargs = 2; cmd = f.do_help }
      ∷ record { name = 102 ∷ 108 ∷ 100 ∷ 117 ∷ 109 ∷ 112 ∷ []; maxargs = 3; cmd = f.do_fldump }
      ∷ record { name = 102 ∷ 108 ∷ 114 ∷ 101 ∷ 97 ∷ 100 ∷ []; maxargs = 4; cmd = f.do_flread }
      ∷ record {
        name = 102 ∷ 108 ∷ 119 ∷ 114 ∷ 105 ∷ 116 ∷ 101 ∷ [];
        maxargs = 4;
        cmd = f.do_flwrite;
      }
      ∷ record {
        name = 102 ∷ 108 ∷ 101 ∷ 114 ∷ 97 ∷ 115 ∷ 101 ∷ [];
        maxargs = 3;
        cmd = f.do_flerase;
      }
      ∷ record { name = 99 ∷ 114 ∷ 99 ∷ 49 ∷ 54 ∷ []; maxargs = 3; cmd = f.do_crc16 }
      ∷ record { name = 108 ∷ 111 ∷ 97 ∷ 100 ∷ 98 ∷ []; maxargs = 2; cmd = f.do_loadb }
      ∷ record { name = 109 ∷ 100 ∷ []; maxargs = 3; cmd = f.do_md }
      ∷ record { name = 114 ∷ 101 ∷ 115 ∷ 101 ∷ 116 ∷ []; maxargs = 1; cmd = f.do_reset }
      ∷ []

  -- `cmd_process`
  unfoldable pub cmd_process : List (Entry S) → Parsed → S → ℤ × S
  cmd_process table parsed s =
      cmd_call (entry_at table (find_cmd_tbl (command_name parsed.argv) table)) parsed s

-- The rule: the first command that has the name, or else the only one that begins with it.
abbrev pub equal : List ℕ → List ℕ → Bool
equal [] [] = true
equal [] (d ∷ name) = false
equal (c ∷ cs) [] = false
equal (c ∷ cs) (d ∷ name) = if c == d then equal cs name else false

abbrev pub or_else : Option ℕ → Option ℕ → Option ℕ
or_else none other = other
or_else (some i) other = some i

abbrev pub only : List ℕ → Option ℕ
only [] = none
only (i ∷ []) = some i
only (i ∷ j ∷ rest) = none

module _ {S : Type 0} (key : List ℕ) where
  abbrev pub named : ℕ → List (Entry S) → Option ℕ
  named i [] = none
  named i (e ∷ table) = if equal key e.name then some i else named (i + 1) table

  abbrev pub beginning : ℕ → List (Entry S) → List ℕ
  beginning i [] = []
  beginning i (e ∷ table) =
      if starts key e.name then i ∷ beginning (i + 1) table else beginning (i + 1) table

equal-starts : (key name : List ℕ) → equal key name ≡ (starts key name && length key == length name)
unfolding starts
equal-starts [] [] = refl
equal-starts [] (d ∷ name) = ground arith
equal-starts (c ∷ cs) [] = refl
equal-starts (c ∷ cs) (d ∷ name) = ground (arith, equal-starts cs name)

only-last :
    (i : ℕ) (earlier : List ℕ)
    → (if length earlier + 1 == 1 then some i else none) ≡ only (earlier ++ i ∷ [])
only-last i [] = refl
only-last i (j ∷ []) = refl
only-last i (j ∷ k ∷ rest) = ground arith

lookup_loop-rule :
    {S : Type 0} (key : List ℕ) (i n_found temp : ℕ) (earlier : List ℕ) (table : List (Entry S))
    → n_found ≡ length earlier
    → (if n_found == 1 then some temp else none) ≡ only earlier
    → lookup_loop key i n_found temp table
      ≡ or_else (named key i table) (only (earlier ++ beginning key i table))
unfolding lookup_loop
lookup_loop-rule key i n_found temp earlier [] count last =
    last ∙ ap only (sym (append-nil earlier))
lookup_loop-rule key i n_found temp earlier (e ∷ table) count last =
    elim (Bool-cases (starts key e.name)) [
      | inl begins ↦ ground (
        arith,
        begins,
        equal-starts key e.name,
        append_assoc earlier (i ∷ []) (beginning key (i + 1) table),
        lookup_loop-rule key (i + 1) (n_found + 1) i (earlier ++ i ∷ []) table
            (omega (arith, count, length-append earlier (i ∷ [])))
            (ap (λ (n : ℕ). if n + 1 == 1 then some i else none) count ∙ only-last i earlier),
      )
      | inr other ↦ ground (
        arith,
        other,
        equal-starts key e.name,
        lookup_loop-rule key (i + 1) n_found temp earlier table count last,
      )
    ]

-- `find_cmd_tbl` returns the first command whose name is the text up to its first dot, or else,
-- if exactly one name begins with that text, its command, or else NULL.
pub find_cmd_tbl-rule :
    {S : Type 0} (cmd : List ℕ) (table : List (Entry S))
    → find_cmd_tbl (some cmd) table
      ≡ or_else (named (up_to_dot cmd) 0 table) (only (beginning (up_to_dot cmd) 0 table))
unfolding find_cmd_tbl
find_cmd_tbl-rule cmd table = lookup_loop-rule (up_to_dot cmd) 0 0 0 [] table refl refl
