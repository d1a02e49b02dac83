-- ===== src/Tests/Parser.antt =====
-- Literals and a keyword.
use db.Prelude.{◌≡◌, refl, true, [], ◌∷◌, ◌++◌, arith}
use db.Sql.Parser.{
  value, failed, expect_value, str_cell, is_space, is_digit, skip_spaces, parse_value,
}
use db.Sql.Parser.Text.{quoted, parse_value-quoted}
use db.Sql.Parser.Number.{minus, sign_bytes, digits, number, parse_value-digits}
use db.Sql.Parser.Token.{parse_value-failed}

space : is_space 32 ≡ true
unfolding is_space
space = refl

parse_value-quoted_example :
    parse_value ((32 ∷ []) ++ (quoted 39 (97 ∷ 39 ∷ []) ++ 59 ∷ []))
    ≡ value (str_cell (97 ∷ 39 ∷ [])) (59 ∷ [])
parse_value-quoted_example =
    parse_value-quoted (32 ∷ []) (97 ∷ 39 ∷ []) (59 ∷ []) 39 (space, tt) refl

parse_value-digits_example :
    parse_value ((32 ∷ []) ++ (sign_bytes minus ++ (digits 3 120 ++ [])))
    ≡ number minus 120 (sign_bytes minus ++ (digits 3 120 ++ [])) []
parse_value-digits_example =
    parse_value-digits (32 ∷ []) minus 3 120 [] (space, tt) (omega arith) (omega arith) tt

refused : parse_value (32 ∷ 120 ∷ []) ≡ failed expect_value (120 ∷ [])
unfolding parse_value skip_spaces is_space is_digit
refused = refl

parse_value-failed_example : 120 ∷ [] ≡ skip_spaces (32 ∷ 120 ∷ [])
parse_value-failed_example = parse_value-failed (32 ∷ 120 ∷ []) (120 ∷ []) expect_value refused
