-- ===== src/Sql/Parser/Statement.antt =====
-- sql/parse_stmt.go: the parser of statements. Errors are constructors, named after their texts. The
-- fuel is for the expressions and for the loops; stuck is that it ran out.
pub mod Halts
pub mod Total
pub mod Names
use db.Prelude.{
  ℕ, zero, suc, Bool, true, false, List, [], ◌∷◌, ◌++◌, Option, none, some, Bytes, if◌then◌else◌,
}
use db.Table.Cell.{Cell, CellType, type_i64, type_str}
use db.Table.Schema.{Column}
use db.Sql.Expr.{Expr}
use db.Sql.Stmt.{StmtSelect, ExprAssign, StmtCreatTable, StmtInsert, StmtUpdate, StmtDelete, Stmt}
use db.Sql.Parser.{
  ValueError, Parsed, value, failed, try_name, try_keyword, try_punctuation, at_end, parse_value,
}
use db.Sql.Parser.Ladder.{Built, tree, parse_expr}
use db.Sql.Parser.Ladder

pub data StmtError : Type 0 where
  unknown_statement trailing_tokens expect_table_name expect_comma expect_column_list : StmtError
  expect_open expect_close expect_pkey_column expect_column_name expect_column_type : StmtError
  no_columns no_primary_key expect_values expect_set expect_column expect_equals : StmtError
  bad_expression : StmtError
  bad_value : ValueError → StmtError

pub data Result {ℓ} (A : Type ℓ) : Type ℓ where
  done : A → Bytes → Result A
  refused : StmtError → Result A
  stuck : Result A

abbrev pub Parser {ℓ} : Type ℓ → Type ℓ
Parser A = Bytes → Result A

abbrev pub bind {ℓ κ} : {A : Type ℓ} {B : Type κ} → Result A → (A → Bytes → Result B) → Result B
bind (done a p) f = f a p
bind (refused e) f = refused e
bind stuck f = stuck

abbrev pub pure {ℓ} : {A : Type ℓ} → A → Parser A
pure a p = done a p

infixl 5 ◌>>=◌ ◌>>◌
abbrev pub ◌>>=◌ {ℓ κ} : {A : Type ℓ} {B : Type κ} → Parser A → (A → Parser B) → Parser B
◌>>=◌ m f p = bind (m p) f

abbrev pub ◌>>◌ {ℓ κ} : {A : Type ℓ} {B : Type κ} → Parser A → Parser B → Parser B
m >> k = m >>= λ _. k

-- if !p.tryPunctuation(pun) { return e }
unfoldable pub punctuation : Bytes → StmtError → Parser (Unit {0})
punctuation pun e p = let hit = try_punctuation pun p in if hit.0 then done tt hit.1 else refused e

-- if !p.tryKeyword(kw) { return e }
abbrev found : StmtError → Option Bytes → Result (Unit {0})
found e none = refused e
found e (some p) = done tt p

unfoldable pub keyword : Bytes → StmtError → Parser (Unit {0})
keyword kw e p = found e (try_keyword (kw ∷ []) p)

-- name, ok := p.tryName(); if !ok { return e }
abbrev found_name : StmtError → Option Bytes × Bytes → Result Bytes
found_name e (none, p) = refused e
found_name e (some name, p) = done name p

unfoldable pub name : StmtError → Parser Bytes
name e p = found_name e (try_name p)

unfoldable pub table_name : Parser Bytes
table_name p = name expect_table_name p

abbrev of_built : Built → Result Expr
of_built (tree e p) = done e p
of_built Ladder.refused = refused bad_expression
of_built Ladder.stuck = stuck

unfoldable pub expression : ℕ → Parser Expr
expression fuel p = of_built (parse_expr fuel p)

abbrev of_parsed : Parsed → Result Cell
of_parsed (value c p) = done c p
of_parsed (failed e p) = refused (bad_value e)

unfoldable pub literal : Parser Cell
literal p = of_parsed (parse_value p)

abbrev pub kw_where : List Bytes
kw_where = (b'W' ∷ b'H' ∷ b'E' ∷ b'R' ∷ b'E' ∷ []) ∷ []

abbrev pub kw_from : List Bytes
kw_from = (b'F' ∷ b'R' ∷ b'O' ∷ b'M' ∷ []) ∷ []

abbrev pub kw_int64 : List Bytes
kw_int64 = (b'i' ∷ b'n' ∷ b't' ∷ b'6' ∷ b'4' ∷ []) ∷ []

abbrev pub kw_string : List Bytes
kw_string = (b's' ∷ b't' ∷ b'r' ∷ b'i' ∷ b'n' ∷ b'g' ∷ []) ∷ []

-- parseWhere
unfoldable pub parse_where : ℕ → Parser (Option Expr)
parse_where fuel p = elim (try_keyword kw_where p) [
  | none ↦ done none p
  | some p' ↦ bind (expression fuel p') (λ e q. done (some e) q)
]

-- commaList; `acc` is what the calls of item have built.
unfoldable pub comma_list {ℓ} : {S : Type ℓ} → (S → Parser S) → ℕ → S → Parser S
comma_list item zero acc p = stuck
comma_list item (suc fuel) acc p = bind (item acc p) (λ acc' p'.
    let comma = try_punctuation (b',' ∷ []) p' in
    elim comma.0 [ true ↦ comma_list item fuel acc' comma.1 | false ↦ done acc' comma.1 ])

-- if len(out.cols) > 0 && !p.tryPunctuation(",") { return errors.New("expect comma") }
unfoldable pub column_comma : List Expr → Parser (Unit {0})
column_comma [] p = done tt p
column_comma (c ∷ cols) p = punctuation (b',' ∷ []) expect_comma p

-- The loop of parseSelect, to the keyword FROM.
unfoldable pub select_cols : ℕ → ℕ → List Expr → Parser (List Expr)
select_cols fuel zero cols p = stuck
select_cols fuel (suc n) cols p = elim (try_keyword kw_from p) [
  | some p' ↦ done cols p'
  | none ↦
      bind (column_comma cols p)
        (λ _ q. bind (expression fuel q) (λ e r. select_cols fuel n (cols ++ e ∷ []) r))
]

abbrev require {ℓ} : {A : Type ℓ} → List A → StmtError → Parser (Unit {0})
require [] e p = refused e
require (a ∷ as') e p = done tt p

unfoldable pub parse_select : ℕ → Parser StmtSelect
parse_select fuel = do
  cols ← select_cols fuel fuel []
  require cols expect_column_list
  table ← table_name
  cond ← parse_where fuel
  pure (record { table = table; cols = cols; cond = cond })

-- The columns and the primary key that parseCreateTable has collected.
abbrev pub Defined : Type 0
Defined = List Column × List Bytes

unfoldable pub pkey_item : List Bytes → Parser (List Bytes)
pkey_item pkey = do n ← name expect_pkey_column; pure (pkey ++ n ∷ [])

unfoldable pub column_type : Parser CellType
column_type p = elim (try_keyword kw_int64 p) [
  | some p' ↦ done type_i64 p'
  | none ↦ elim (try_keyword kw_string p) [
    | some p' ↦ done type_str p'
    | none ↦ refused expect_column_type
  ]
]

unfoldable pub pkey_list : ℕ → Defined → Parser Defined
pkey_list fuel (cols, pkey) = do
  punctuation (b'(' ∷ []) expect_open
  pkey ← comma_list pkey_item fuel pkey
  punctuation (b')' ∷ []) expect_close
  pure (cols, pkey)

unfoldable pub column_item : Defined → Parser Defined
column_item (cols, pkey) = do
  n ← name expect_column_name
  ty ← column_type
  pure (cols ++ record { name = n; ty = ty } ∷ [], pkey)

abbrev pub primary_key : List Bytes
primary_key = (b'P' ∷ b'R' ∷ b'I' ∷ b'M' ∷ b'A' ∷ b'R' ∷ b'Y' ∷ []) ∷ (b'K' ∷ b'E' ∷ b'Y' ∷ []) ∷ []

-- One item of the list in parentheses.
unfoldable pub table_item : ℕ → Defined → Parser Defined
table_item fuel acc p = elim (try_keyword primary_key p) [
  | some p' ↦ pkey_list fuel acc p'
  | none ↦ column_item acc p
]

unfoldable pub parse_create_table : ℕ → Parser StmtCreatTable
parse_create_table fuel = do
  table ← table_name
  punctuation (b'(' ∷ []) expect_open
  (cols, pkey) ← comma_list (table_item fuel) fuel ([], [])
  punctuation (b')' ∷ []) expect_close
  require cols no_columns
  require pkey no_primary_key
  pure (record { table = table; cols = cols; pkey = pkey })

unfoldable pub value_item : List Cell → Parser (List Cell)
value_item cells = do c ← literal; pure (cells ++ c ∷ [])

unfoldable pub parse_insert : ℕ → Parser StmtInsert
parse_insert fuel = do
  table ← table_name
  keyword (b'V' ∷ b'A' ∷ b'L' ∷ b'U' ∷ b'E' ∷ b'S' ∷ []) expect_values
  punctuation (b'(' ∷ []) expect_open
  cells ← comma_list value_item fuel []
  punctuation (b')' ∷ []) expect_close
  pure (record { table = table; value = cells })

unfoldable pub assign_item : ℕ → List ExprAssign → Parser (List ExprAssign)
assign_item fuel asns = do
  n ← name expect_column
  punctuation (b'=' ∷ []) expect_equals
  e ← expression fuel
  pure (asns ++ record { column = n; expr = e } ∷ [])

unfoldable pub parse_update : ℕ → Parser StmtUpdate
parse_update fuel = do
  table ← table_name
  keyword (b'S' ∷ b'E' ∷ b'T' ∷ []) expect_set
  asns ← comma_list (assign_item fuel) fuel []
  cond ← parse_where fuel
  pure (record { table = table; cond = cond; value = asns })

unfoldable pub parse_delete : ℕ → Parser StmtDelete
parse_delete fuel = do
  table ← table_name
  cond ← parse_where fuel
  pure (record { table = table; cond = cond })

-- The keywords of the five statements.
pub data Verb : Type 0 where
  select_verb create_verb insert_verb update_verb delete_verb : Verb

abbrev pub keywords : Verb → List Bytes
keywords select_verb = (b'S' ∷ b'E' ∷ b'L' ∷ b'E' ∷ b'C' ∷ b'T' ∷ []) ∷ []
keywords create_verb =
    (b'C' ∷ b'R' ∷ b'E' ∷ b'A' ∷ b'T' ∷ b'E' ∷ []) ∷ (b'T' ∷ b'A' ∷ b'B' ∷ b'L' ∷ b'E' ∷ []) ∷ []
keywords insert_verb =
    (b'I' ∷ b'N' ∷ b'S' ∷ b'E' ∷ b'R' ∷ b'T' ∷ []) ∷ (b'I' ∷ b'N' ∷ b'T' ∷ b'O' ∷ []) ∷ []
keywords update_verb = (b'U' ∷ b'P' ∷ b'D' ∷ b'A' ∷ b'T' ∷ b'E' ∷ []) ∷ []
keywords delete_verb =
    (b'D' ∷ b'E' ∷ b'L' ∷ b'E' ∷ b'T' ∷ b'E' ∷ []) ∷ (b'F' ∷ b'R' ∷ b'O' ∷ b'M' ∷ []) ∷ []

abbrev pub verbs : List Verb
verbs = select_verb ∷ create_verb ∷ insert_verb ∷ update_verb ∷ delete_verb ∷ []

-- The cases of the switch, in order.
unfoldable pub verb_of : List Verb → Parser Verb
verb_of [] p = refused unknown_statement
verb_of (v ∷ vs) p = elim (try_keyword (keywords v) p) [ some p' ↦ done v p' | none ↦ verb_of vs p ]

unfoldable pub body : ℕ → Verb → Parser Stmt
body fuel select_verb p = bind (parse_select fuel p) (λ s q. done (Stmt.select s) q)
body fuel create_verb p = bind (parse_create_table fuel p) (λ s q. done (Stmt.create_table s) q)
body fuel insert_verb p = bind (parse_insert fuel p) (λ s q. done (Stmt.insert s) q)
body fuel update_verb p = bind (parse_update fuel p) (λ s q. done (Stmt.update s) q)
body fuel delete_verb p = bind (parse_delete fuel p) (λ s q. done (Stmt.delete s) q)

-- if !p.atEnd() { return nil, errors.New("trailing tokens after statement") }
unfoldable pub finish : Stmt → Parser Stmt
finish s p = let end = at_end p in if end.0 then done s end.1 else refused trailing_tokens

unfoldable pub parse_stmt : ℕ → Parser Stmt
parse_stmt fuel = do v ← verb_of verbs; s ← body fuel v; finish s
