-- ===== src/Sql/Parser.antt =====
-- sql/parser.go, sql/parse_value.go: the primitives of the parser and the parser of literals. A
-- parser is the bytes from its position on; what lies before is not read again. `strings.EqualFold`
-- is written out for ASCII, and the keywords are ASCII.
pub mod Token
pub mod Text
pub mod Number
pub mod Ladder
pub mod Statement
use db.Prelude.{
  ℕ, suc, ◌+◌, ◌-◌, ◌*◌, ◌^◌, Bool, true, false, not, ◌&&◌, ◌||◌, List, [], ◌∷◌, ◌++◌, Option, none,
  some, Bytes, length, take, drop, ltb, leb, ◌==◌, if◌then◌else◌, bit_or,
}
use db.Prelude.Int.{ℤ, pos, negsuc}
use db.Bytes.Order.{cmp, is_eq}
use db.Table.Cell.{Cell, type_i64, type_str}

-- '\t', '\n', '\v', '\f', '\r' and ' '
unfoldable pub is_space : ℕ → Bool
is_space ch = (leb 9 ch && leb ch 13) || ch == 32

abbrev pub lower : ℕ → ℕ
lower ch = bit_or ch 32

unfoldable pub is_alpha : ℕ → Bool
is_alpha ch = leb b'a' (lower ch) && leb (lower ch) b'z'

unfoldable pub is_digit : ℕ → Bool
is_digit ch = leb b'0' ch && leb ch b'9'

unfoldable pub is_name_start : ℕ → Bool
is_name_start ch = is_alpha ch || ch == b'_'

unfoldable pub is_name_continue : ℕ → Bool
is_name_continue ch = is_alpha ch || is_digit ch || ch == b'_'

unfoldable pub skip_spaces : Bytes → Bytes
skip_spaces [] = []
skip_spaces (ch ∷ p) = let rest = skip_spaces p in if is_space ch then rest else ch ∷ p

-- for p.pos < len(p.buf) && test(p.buf[p.pos]) { p.pos++ }: what is passed, and the parser after it.
unfoldable pub span : (ℕ → Bool) → Bytes → Bytes × Bytes
span test [] = ([], [])
span test (ch ∷ p) =
    let rest = span test p in if test ch then (ch ∷ rest.0, rest.1) else ([], ch ∷ p)

abbrev name_at : Bytes → Option Bytes × Bytes
name_at [] = (none, [])
name_at (ch ∷ p) =
    if is_name_start ch
    then (some (ch ∷ (span is_name_continue p).0), (span is_name_continue p).1)
    else (none, ch ∷ p)

-- tryName: the name, and the parser after the call.
unfoldable pub try_name : Bytes → Option Bytes × Bytes
try_name p = name_at (skip_spaces p)

-- strings.EqualFold on a keyword of the same length
unfoldable pub equal_fold : Bytes → Bytes → Bool
equal_fold [] [] = true
equal_fold (a ∷ s) (b ∷ t) =
    (a == b || (is_alpha a && is_alpha b && lower a == lower b)) && equal_fold s t
equal_fold _ _ = false

abbrev separated : Bytes → Bool
separated [] = true
separated (ch ∷ p) = not (is_name_continue ch)

-- One keyword of tryKeyword: the parser behind it.
unfoldable pub keyword : Bytes → Bytes → Option Bytes
keyword kw p =
    let s = skip_spaces p in
    let n = length kw in
    if ltb (length s) n || not (equal_fold (take n s) kw)
    then none
    else if separated (drop n s)
    then some (drop n s)
    else none

-- tryKeyword; none is false, with the parser where it was.
unfoldable pub try_keyword : List Bytes → Bytes → Option Bytes
try_keyword [] p = some p
try_keyword (kw ∷ kws) p = elim (keyword kw p) [ none ↦ none | some p' ↦ try_keyword kws p' ]

-- tryPunctuation
unfoldable pub try_punctuation : Bytes → Bytes → Bool × Bytes
try_punctuation pun p =
    let s = skip_spaces p in
    let n = length pun in
    if ltb (length s) n || not (is_eq (cmp (take n s) pun)) then (false, s) else (true, drop n s)

abbrev past_semicolon : Bytes → Bytes
past_semicolon [] = []
past_semicolon (ch ∷ p) = if ch == b';' then skip_spaces p else ch ∷ p

-- atEnd
unfoldable pub at_end : Bytes → Bool × Bytes
at_end p = let s = past_semicolon (skip_spaces p) in (length s == 0, s)

pub data ValueError : Type 0 where
  expect_value expect_integer out_of_range : ValueError
  expect_string dangling_escape unknown_escape unterminated : ValueError

-- The cell and the parser behind it, or the error and where the parser stands.
pub data Parsed : Type 0 where
  value : Cell → Bytes → Parsed
  failed : ValueError → Bytes → Parsed

-- strconv.ParseInt(s, 10, 64) of a sign and digits, by the number that the digits are.
unfoldable pub decimal : ℕ → Bytes → ℕ
decimal n [] = n
decimal n (ch ∷ ds) = decimal (n * 10 + (ch - b'0')) ds

unfoldable pub signed : Bool → ℕ → Option ℤ
signed false n = if ltb n (2 ^ 63) then some (pos n) else none
signed true n =
    if n == 0 then some (pos 0) else if leb n (2 ^ 63) then some (negsuc (n - 1)) else none

abbrev pub i64_cell : ℤ → Cell
i64_cell x = record { ty = type_i64; i64 = x; str = [] }

abbrev pub str_cell : Bytes → Cell
str_cell s = record { ty = type_str; i64 = pos 0; str = s }

-- The digits after the sign; `start` is the parser before it.
unfoldable pub digits_at : Bytes → Bool → Bytes → Parsed
digits_at start negative p =
    let run = span is_digit p in
    if length run.0 == 0
    then failed expect_integer start
    else elim (signed negative (decimal 0 run.0)) [
      | none ↦ failed out_of_range start
      | some x ↦ value (i64_cell x) run.1
    ]

abbrev signed_at : Bytes → Parsed
signed_at [] = digits_at [] false []
signed_at (ch ∷ p) =
    if ch == b'+'
    then digits_at (ch ∷ p) false p
    else if ch == b'-'
    then digits_at (ch ∷ p) true p
    else digits_at (ch ∷ p) false (ch ∷ p)

unfoldable pub parse_int : Bytes → Parsed
parse_int p = signed_at (skip_spaces p)

abbrev pub is_quote : ℕ → Bool
is_quote ch = ch == 39 || ch == 34

-- What stands behind a backslash: ', " or \.
abbrev pub is_escapable : ℕ → Bool
is_escapable ch = is_quote ch || ch == 92

-- The loop of parseString; sb is what it has read, and `start` the parser before the quote.
unfoldable pub string_loop : Bytes → ℕ → Bytes → Bytes → Parsed
string_loop start quote sb [] = failed unterminated start
string_loop start quote sb (ch ∷ []) =
    if ch == 92
    then failed dangling_escape start
    else if ch == quote
    then value (str_cell sb) []
    else failed unterminated start
string_loop start quote sb (ch ∷ esc ∷ p) =
    let escaped = string_loop start quote (sb ++ esc ∷ []) p in
    let plain = string_loop start quote (sb ++ ch ∷ []) (esc ∷ p) in
    if ch == 92
    then (if is_escapable esc then escaped else failed unknown_escape start)
    else if ch == quote
    then value (str_cell sb) (esc ∷ p)
    else plain

abbrev quoted_at : Bytes → Parsed
quoted_at [] = failed expect_string []
quoted_at (ch ∷ p) =
    if is_quote ch then string_loop (ch ∷ p) ch [] p else failed expect_string (ch ∷ p)

unfoldable pub parse_string : Bytes → Parsed
parse_string p = quoted_at (skip_spaces p)

abbrev value_at : Bytes → Parsed
value_at [] = failed expect_value []
value_at (ch ∷ p) =
    if is_quote ch
    then parse_string (ch ∷ p)
    else if is_digit ch || ch == b'-' || ch == b'+'
    then parse_int (ch ∷ p)
    else failed expect_value (ch ∷ p)

unfoldable pub parse_value : Bytes → Parsed
parse_value p = value_at (skip_spaces p)
