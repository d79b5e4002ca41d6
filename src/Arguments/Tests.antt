-- ===== src/Arguments/Tests.antt =====
-- src/text.cpp at concrete texts.
use source2root.Base.{◌≡◌, refl, arith, true, [], ◌∷◌, ok, err, if◌then◌else◌, ◌&&◌}
use source2root.Base.Text.{
  codes, pos, negsuc, int_le, to_string_int, from_chars_int, from_chars_unsigned, scan_digits,
}
use source2root.Arguments.{
  TextError, parse_arguments, argument_rounds, one_argument, token_bytes, skip_spaces,
  bind_argument, parse_int,
}
use source2root.Arguments.Bounds.{Gives, AreArguments, parse_arguments-AreArguments}
use source2root.Arguments.Quote.{print_arguments, parse_arguments-print}
use source2root.Arguments.Numbers.{parse_int-to_string_int}

words : parse_arguments (codes "kick \"a b\"  5") ≡ ok (codes "kick" ∷ codes "a b" ∷ codes "5" ∷ [])
unfolding parse_arguments argument_rounds one_argument token_bytes skip_spaces
words = refl

inner_quote : parse_arguments (codes "a\"b") ≡ err TextError.misplaced_quote
unfolding parse_arguments argument_rounds one_argument token_bytes skip_spaces
inner_quote = refl

remaining_text : bind_argument true (codes "kick \"a b\"  5") (pos 1) 8 ≡ ok (codes "a b 5")
unfolding bind_argument parse_arguments argument_rounds one_argument token_bytes skip_spaces
remaining_text = refl

parsed_number : parse_int (codes "-5") (negsuc 9) (pos 0) ≡ ok (negsuc 4)
unfolding parse_int from_chars_int from_chars_unsigned scan_digits
parsed_number = refl

parse_arguments-AreArguments_example : Gives AreArguments (parse_arguments (codes "a b"))
parse_arguments-AreArguments_example = parse_arguments-AreArguments (codes "a b")

parse_arguments-print_example :
    parse_arguments (print_arguments (codes "kick" ∷ codes "a\"b" ∷ []))
    ≡ ok (codes "kick" ∷ codes "a\"b" ∷ [])
parse_arguments-print_example =
    parse_arguments-print (codes "kick" ∷ codes "a\"b" ∷ []) (omega arith)
      (omega arith, (omega arith, tt)) (refl, (refl, tt)) (omega arith)

parse_int-to_string_int_example : parse_int (to_string_int (negsuc 4)) (negsuc 9) (pos 0) ≡ (
    if int_le (negsuc 9) (negsuc 4) && int_le (negsuc 4) (pos 0)
    then ok (negsuc 4)
    else err TextError.expected_integer)
parse_int-to_string_int_example =
    parse_int-to_string_int (negsuc 4) (negsuc 9) (pos 0) (omega arith) refl
