-- ===== src/Sql/Parser/Ladder.antt =====
-- sql/expr.go, with parseTuple of sql/planner.go and commaList of sql/parse_stmt.go: the precedence
-- ladder. The recursive descent runs on fuel.
pub mod Leaf
pub mod Match
pub mod Total
use db.Prelude.{
  ℕ, zero, suc, Bool, true, false, List, [], ◌∷◌, Option, none, some, Bytes, ◌==◌, if◌then◌else◌,
}
use db.Table.Cell.{Cell}
use db.Sql.Expr.{
  ExprOp, op_add, op_sub, op_mul, op_div, op_or, op_and, op_not, op_neg, op_eq, op_ne, op_le, op_ge,
  op_lt, op_gt, Expr, Exprs, no_more, one_more, column, constant, bin_op, un_op, tuple,
}
use db.Sql.Parser.{
  skip_spaces, try_name, try_keyword, try_punctuation, parse_value, Parsed, value, failed,
}

-- binToken
pub record BinToken : Type 0 where
  pub is_keyword : Bool
  pub text : Bytes
  pub op : ExprOp

abbrev word : Bytes → ExprOp → BinToken
word text op = record { is_keyword = true; text = text; op = op }

abbrev mark : Bytes → ExprOp → BinToken
mark text op = record { is_keyword = false; text = text; op = op }

abbrev keyword_hit : Bytes → Option Bytes → Bool × Bytes
keyword_hit p none = (false, p)
keyword_hit p (some p') = (true, p')

-- tryBinToken
unfoldable pub try_bin_token : BinToken → Bytes → Bool × Bytes
try_bin_token t p =
    if t.is_keyword then keyword_hit p (try_keyword (t.text ∷ []) p) else try_punctuation t.text p

-- The tokens are tried in order; the parser stands where the last try left it.
unfoldable pub match_token : List BinToken → Bytes → Option ExprOp × Bytes
match_token [] p = (none, p)
match_token (t ∷ ts) p =
    let hit = try_bin_token t p in
    let rest = match_token ts hit.1 in if hit.0 then (some t.op, hit.1) else rest

-- The functions of the ladder, the lowest binding first.
pub data Level : Type 0 where
  or_level and_level not_level cmp_level add_level mul_level neg_level atom_level : Level

abbrev pub tokens : Level → List BinToken
tokens or_level = word (b'O' ∷ b'R' ∷ []) op_or ∷ []
tokens and_level = word (b'A' ∷ b'N' ∷ b'D' ∷ []) op_and ∷ []
tokens cmp_level =
    mark (b'<' ∷ b'=' ∷ []) op_le
    ∷ mark (b'>' ∷ b'=' ∷ []) op_ge
    ∷ mark (b'<' ∷ b'>' ∷ []) op_ne
    ∷ mark (b'!' ∷ b'=' ∷ []) op_ne
    ∷ mark (b'=' ∷ []) op_eq
    ∷ mark (b'<' ∷ []) op_lt
    ∷ mark (b'>' ∷ []) op_gt
    ∷ []
tokens add_level = mark (b'+' ∷ []) op_add ∷ mark (b'-' ∷ []) op_sub ∷ []
tokens mul_level = mark (b'*' ∷ []) op_mul ∷ mark (b'/' ∷ []) op_div ∷ []
tokens _ = []

-- A tree and the parser behind it, an error, or that the fuel ran out.
pub data Built : Type 0 where
  tree : Expr → Bytes → Built
  refused stuck : Built

pub data Listed : Type 0 where
  listed : Exprs → Bytes → Listed
  no_list list_stuck : Listed

abbrev pub unary : ExprOp → Built → Built
unary op (tree kid p) = tree (un_op op kid) p
unary op refused = refused
unary op stuck = stuck

abbrev pub listed_more : Expr → Listed → Listed
listed_more e (listed es p) = listed (one_more e es) p
listed_more e no_list = no_list
listed_more e list_stuck = list_stuck

-- A list of one is grouping.
abbrev pub grouped : Exprs → Expr
grouped (one_more e no_more) = e
grouped es = tuple es

-- The closing parenthesis of parseTuple
abbrev pub closed : Listed → Built
closed (listed es p) =
    let close = try_punctuation (b')' ∷ []) p in
    if close.0 then tree (grouped es) close.1 else refused
closed no_list = refused
closed list_stuck = stuck

-- The end of parseAtom: a column or a literal.
abbrev literal : Parsed → Built
literal (value cell p) = tree (constant cell) p
literal (failed e p) = refused

abbrev named : Option Bytes × Bytes → Built
named (some name, p) = tree (column name) p
named (none, p) = literal (parse_value p)

unfoldable pub leaf : Bytes → Built
leaf p = named (try_name p)

abbrev opens : Bytes → Bool
opens [] = false
opens (ch ∷ p) = ch == b'('

unfoldable mutual
  -- parseOr to parseAtom
  pub parse : ℕ → Level → Bytes → Built
  parse zero l p = stuck
  parse (suc f) or_level p = chain f or_level and_level p
  parse (suc f) and_level p = chain f and_level not_level p
  parse (suc f) not_level p = elim (try_keyword ((b'N' ∷ b'O' ∷ b'T' ∷ []) ∷ []) p) [
    | some p' ↦ unary op_not (parse f not_level p')
    | none ↦ parse f cmp_level p
  ]
  parse (suc f) cmp_level p = chain f cmp_level add_level p
  parse (suc f) add_level p = chain f add_level mul_level p
  parse (suc f) mul_level p = chain f mul_level neg_level p
  parse (suc f) neg_level p =
      let minus = try_punctuation (b'-' ∷ []) p in
      elim minus.0 [
        | true ↦ unary op_neg (parse f neg_level minus.1)
        | false ↦ parse f atom_level minus.1
      ]
  parse (suc f) atom_level p =
      let s = skip_spaces p in
      elim (opens s) [ true ↦ closed (items f (try_punctuation (b'(' ∷ []) s).1) | false ↦ leaf s ]

  -- parseBinop at a level, with the inner one.
  pub chain : ℕ → Level → Level → Bytes → Built
  chain zero l inner p = stuck
  chain (suc f) l inner p = elim (parse f inner p) [
    | tree left p' ↦ more f l inner left p'
    | refused ↦ refused
    | stuck ↦ stuck
  ]

  -- The loop of parseBinop.
  pub more : ℕ → Level → Level → Expr → Bytes → Built
  more zero l inner left p = stuck
  more (suc f) l inner left p =
      let hit = match_token (tokens l) p in
      elim hit.0 [
        | none ↦ tree left hit.1
        | some op ↦ elim (parse f inner hit.1) [
          | tree right p' ↦ more f l inner (bin_op op left right) p'
          | refused ↦ refused
          | stuck ↦ stuck
        ]
      ]

  -- commaList of expressions, for parseTuple.
  pub items : ℕ → Bytes → Listed
  items zero p = list_stuck
  items (suc f) p = elim (parse f or_level p) [
    | tree e p' ↦
        let comma = try_punctuation (b',' ∷ []) p' in
        elim comma.0 [
          | true ↦ listed_more e (items f comma.1)
          | false ↦ listed (one_more e no_more) comma.1
        ]
    | refused ↦ no_list
    | stuck ↦ list_stuck
  ]

-- parseExpr
unfoldable pub parse_expr : ℕ → Bytes → Built
parse_expr fuel p = parse fuel or_level p
