-- ===== src/KeyValues/Tests.antt =====
-- src/keyvalues.cpp at a concrete file.
use source2root.Base.{◌≡◌, ◌⊎◌, refl, ok, err, arith}
use source2root.Base.Text.{Bytes, codes, starts_with}
use source2root.KeyValues.{
  scalar, object, nil, cons, Entries, Problem, too_large, at_line, read_key_values, parse_rounds,
  at_rest, entry, token, quoted, bare, escaped, skip, skip_rounds, line_end, comment_end, line,
  newlines, missing_closing_brace,
}
use source2root.KeyValues.Space.{IsReported}
use source2root.KeyValues.Token.{quote, escape}
use source2root.KeyValues.Print.{print, read_key_values-print, Holds, size}
use source2root.KeyValues.Rounds.{read_key_values_total}

abbrev tree : Entries
tree = cons (object (codes "Groups") (cons (scalar (codes "immunity") (codes "5")) nil)) nil

read_tree : read_key_values (codes "/* a */ Groups { immunity \"5\" }") ≡ ok tree
unfolding read_key_values parse_rounds at_rest entry token quoted bare escaped skip skip_rounds
    line_end comment_end line newlines starts_with
read_tree = refl

read_open : read_key_values (codes "Groups { a b ") ≡ err (at_line 1 missing_closing_brace)
unfolding read_key_values parse_rounds at_rest entry token quoted bare escaped skip skip_rounds
    line_end comment_end line newlines starts_with
read_open = refl

read_key_values-print_example : read_key_values (print tree) ≡ ok tree
unfolding Holds size print quote escape
read_key_values-print_example =
    read_key_values-print tree (ground arith) (omega arith) (omega arith)

read_key_values_total_example :
    (at_line 1 missing_closing_brace ≡ too_large)
    ⊎ ((p : Problem) × (at : Bytes) × (at_line 1 missing_closing_brace
          ≡ at_line (line (codes "Groups { a b ") at) p)
        × IsReported p)
read_key_values_total_example =
    read_key_values_total (codes "Groups { a b ") (at_line 1 missing_closing_brace) read_open
