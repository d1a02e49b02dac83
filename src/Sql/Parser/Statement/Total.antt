-- ===== src/Sql/Parser/Statement/Total.antt =====
-- sql/parse_stmt.go (ParseStmt): every text of a statement is parsed or refused.
use db.Prelude.{
  ℕ, zero, suc, ◌+◌, ◌*◌, ◌≤◌, ◌<◌, ◌≡◌, refl, List, [], ◌∷◌, ◌++◌, Option, none, some, Bytes,
  arith, length, All, Bool-cases, inl, inr,
}
use db.Table.Cell.{Cell, type_i64, type_str}
use db.Sql.Expr.{Expr}
use db.Sql.Stmt.{ExprAssign, Stmt}
use db.Sql.Parser.{
  Parsed, value, failed, name_at, is_name_start, is_name_continue, try_name, try_keyword, at_end,
  parse_value, skip_spaces,
}
use db.Sql.Parser.Ladder.Leaf.{length-skip_spaces, value_lt, length-span}
use db.Sql.Parser.Statement.{
  StmtError, Result, done, refused, Parser, bind, expression, keyword, found, name, found_name,
  table_name, of_parsed, literal, parse_where, column_comma, select_cols, require, parse_select,
  Defined, pkey_item, column_type, pkey_list, column_item, primary_key, kw_where, kw_from, kw_int64,
  kw_string, expect_column_type, table_item, parse_create_table, value_item, parse_insert,
  assign_item, parse_update, parse_delete, Verb, select_verb, create_verb, insert_verb, update_verb,
  delete_verb, keywords, verbs, verb_of, body, finish, parse_stmt, expect_table_name, expect_values,
  expect_set,
}
use db.Sql.Parser.Statement.Halts.{
  Halts, Halts-le, bind-Halts, try_keyword_le, keyword-Halts, bind-expression, Ending, pure-Ending,
  bind-Ending, comma_list-Ending, punctuation-Ending, expression-Ending, column_comma-Ending,
}

keyword-Ending : (n : ℕ) (kw : Bytes) (e : StmtError) → 0 < length kw → Ending n (keyword kw e)
unfolding keyword
keyword-Ending n kw e k = record { halts = λ p l. hit p (try_keyword (kw ∷ []) p) refl }
  where
    hit :
        (p : Bytes) (o : Option Bytes) → try_keyword (kw ∷ []) p ≡ o → Halts (length p) (found e o)
    hit p none s = tt
    hit p (some q) s = try_keyword_le (kw ∷ []) p q (k, tt) s

name-Ending : (n : ℕ) (e : StmtError) → Ending n (name e)
unfolding name try_name
name-Ending n e = record {
  halts = λ p l.
      Halts-le (length (skip_spaces p)) (length p) (found_name e (name_at (skip_spaces p)))
        (length-skip_spaces p) (at (skip_spaces p));
}
  where
    at : (s : Bytes) → Halts (length s) (found_name e (name_at s))
    at [] = tt
    at (ch ∷ p) = elim (Bool-cases (is_name_start ch)) [
      | inl t ↦ rw t (omega (arith, length-span is_name_continue p))
      | inr t ↦ rw t tt
    ]

literal-Ending : (n : ℕ) → Ending n literal
unfolding literal
literal-Ending n = record { halts = λ p l. read p (parse_value p) refl }
  where
    read : (p : Bytes) (r : Parsed) → parse_value p ≡ r → Halts (length p) (of_parsed r)
    read p (value c q) e = omega (arith, value_lt p q c e)
    read p (failed e' q) e = tt

require-Ending {ℓ} : {A : Type ℓ} (n : ℕ) (xs : List A) (e : StmtError) → Ending n (require xs e)
require-Ending n [] e = record { halts = λ p l. tt }
require-Ending n (x ∷ xs) e = record { halts = λ p l. omega arith }

column_type-Ending : (n : ℕ) → Ending n column_type
unfolding column_type
column_type-Ending n = record {
  halts = λ p l.
      keyword-Halts kw_int64 (length p) p (λ q. done type_i64 q)
        (elim (try_keyword kw_string p) [
          | some q ↦ done type_str q
          | none ↦ refused expect_column_type
        ])
        (omega arith) (λ q s. s)
        (keyword-Halts kw_string (length p) p (λ q. done type_str q) (refused expect_column_type)
          (omega arith) (λ q s. s) tt);
}

some_keyword : (v : Verb) → All (λ kw. 0 < length kw) (keywords v)
some_keyword select_verb = omega arith
some_keyword create_verb = omega arith
some_keyword insert_verb = omega arith
some_keyword update_verb = omega arith
some_keyword delete_verb = omega arith

module _ (n fuel : ℕ) (enough : 16 * n + 13 ≤ fuel) where
  parse_where-Ending : Ending n (parse_where fuel)
  unfolding parse_where
  parse_where-Ending = record {
    halts = λ p l.
        keyword-Halts kw_where (length p) p (λ q. bind (expression fuel q) (λ e r. done (some e) r))
          (done none p) (omega arith)
          (λ q s.
            bind-expression fuel (length p) q (λ e r. done (some e) r) (omega arith)
              (λ e r t. omega arith))
          (omega arith);
  }

  select_loop :
      (k : ℕ) (cols : List Expr) (p : Bytes)
      → length p < k
      → length p ≤ n
      → Halts (length p) (select_cols fuel k cols p)
  unfolding select_cols
  select_loop zero cols p l h = absurd (omega arith)
  select_loop (suc k) cols p l h =
      let more : Expr → Bytes → Result (List Expr) = λ e r. select_cols fuel k (cols ++ e ∷ []) r in
      let column : Bytes → Result (List Expr) = λ q. bind (expression fuel q) more in
      keyword-Halts kw_from (length p) p (λ q. done cols q)
        (bind (column_comma cols p) (λ u q. column q)) (omega arith) (λ q s. s)
        (bind-Halts (length p) (length p) (column_comma cols p) (λ u q. column q)
          ((column_comma-Ending n cols).halts p h)
          (λ u q s. bind-expression fuel (length p) q more (omega arith) (λ e r t.
            Halts-le (length r) (length p) (more e r) (omega arith)
              (select_loop k (cols ++ e ∷ []) r (omega arith) (omega arith)))))

  select_cols-Ending : Ending n (select_cols fuel fuel [])
  select_cols-Ending = record { halts = λ p l. select_loop fuel [] p (omega arith) l }

  table_name-Ending : Ending n table_name
  unfolding table_name
  table_name-Ending = record { halts = (name-Ending n expect_table_name).halts }

  parse_select-Ending : Ending n (parse_select fuel)
  unfolding parse_select
  parse_select-Ending = search (
    bind-Ending, pure-Ending, select_cols-Ending, require-Ending, table_name-Ending,
    parse_where-Ending,
  )

  ruleset steps = (
    bind-Ending, pure-Ending, punctuation-Ending, require-Ending, table_name-Ending, name-Ending,
    literal-Ending, parse_where-Ending, column_type-Ending,
  )

  more_fuel : n < fuel
  more_fuel = omega arith

  values-Ending : Ending n (keyword (b'V' ∷ b'A' ∷ b'L' ∷ b'U' ∷ b'E' ∷ b'S' ∷ []) expect_values)
  values-Ending =
      keyword-Ending n (b'V' ∷ b'A' ∷ b'L' ∷ b'U' ∷ b'E' ∷ b'S' ∷ []) expect_values (omega arith)

  set-Ending : Ending n (keyword (b'S' ∷ b'E' ∷ b'T' ∷ []) expect_set)
  set-Ending = keyword-Ending n (b'S' ∷ b'E' ∷ b'T' ∷ []) expect_set (omega arith)

  value-Ending : Ending n (expression fuel)
  value-Ending = expression-Ending n fuel enough

  pkey_item-Ending : (pkey : List Bytes) → Ending n (pkey_item pkey)
  unfolding pkey_item
  pkey_item-Ending pkey = search steps

  pkey_list-Ending : (acc : Defined) → Ending n (pkey_list fuel acc)
  unfolding pkey_list
  pkey_list-Ending (cols, pkey) = search (steps, comma_list-Ending, pkey_item-Ending, more_fuel)

  column_item-Ending : (acc : Defined) → Ending n (column_item acc)
  unfolding column_item
  column_item-Ending (cols, pkey) = search steps

  table_item-Ending : (acc : Defined) → Ending n (table_item fuel acc)
  unfolding table_item
  table_item-Ending acc = record {
    halts = λ p l.
        keyword-Halts primary_key (length p) p (λ q. pkey_list fuel acc q) (column_item acc p)
          (omega arith)
          (λ q s.
            Halts-le (length q) (length p) (pkey_list fuel acc q) s
              ((pkey_list-Ending acc).halts q (omega arith)))
          ((column_item-Ending acc).halts p l);
  }

  parse_create_table-Ending : Ending n (parse_create_table fuel)
  unfolding parse_create_table
  parse_create_table-Ending =
      search (steps, comma_list-Ending, table_item-Ending, more_fuel) depth 9

  value_item-Ending : (cells : List Cell) → Ending n (value_item cells)
  unfolding value_item
  value_item-Ending cells = search steps

  parse_insert-Ending : Ending n (parse_insert fuel)
  unfolding parse_insert
  parse_insert-Ending =
      search (steps, comma_list-Ending, value_item-Ending, more_fuel, values-Ending) depth 9

  assign_item-Ending : (asns : List ExprAssign) → Ending n (assign_item fuel asns)
  unfolding assign_item
  assign_item-Ending asns = search (steps, value-Ending)

  parse_update-Ending : Ending n (parse_update fuel)
  unfolding parse_update
  parse_update-Ending =
      search (steps, comma_list-Ending, assign_item-Ending, more_fuel, set-Ending) depth 9

  parse_delete-Ending : Ending n (parse_delete fuel)
  unfolding parse_delete
  parse_delete-Ending = search steps

  verb_of-Ending : (vs : List Verb) → Ending n (verb_of vs)
  unfolding verb_of
  verb_of-Ending [] = record { halts = λ p l. tt }
  verb_of-Ending (v ∷ vs) = record {
    halts = λ p l.
        keyword-Halts (keywords v) (length p) p (λ q. done v q) (verb_of vs p) (some_keyword v)
          (λ q s. s) ((verb_of-Ending vs).halts p l);
  }

  as_stmt {ℓ} :
      {A : Type ℓ} (m : Parser A) (f : A → Stmt)
      → Ending n m
      → Ending n (λ p. bind (m p) (λ s q. done (f s) q))
  as_stmt m f h = bind-Ending n h (λ s. pure-Ending n (f s))

  body-Ending : (v : Verb) → Ending n (body fuel v)
  unfolding body
  body-Ending select_verb = as_stmt (parse_select fuel) Stmt.select parse_select-Ending
  body-Ending create_verb =
      as_stmt (parse_create_table fuel) Stmt.create_table parse_create_table-Ending
  body-Ending insert_verb = as_stmt (parse_insert fuel) Stmt.insert parse_insert-Ending
  body-Ending update_verb = as_stmt (parse_update fuel) Stmt.update parse_update-Ending
  body-Ending delete_verb = as_stmt (parse_delete fuel) Stmt.delete parse_delete-Ending

-- Nothing is left behind a statement.
finish-Halts : (s : Stmt) (p : Bytes) → Halts 0 (finish s p)
unfolding finish at_end
finish-Halts s p = ground arith

-- Parsing a statement ends, whatever the text, with fuel for sixteen calls for each byte and thirteen more: it gives an
-- error, or a statement with no byte of the text left over.
pub parse_stmt-Halts :
    (fuel : ℕ) (p : Bytes) → 16 * length p + 13 ≤ fuel → Halts 0 (parse_stmt fuel p)
unfolding parse_stmt
parse_stmt-Halts fuel p enough =
    let n = length p in
    bind-Halts n 0 (verb_of verbs p) (λ v q. bind (body fuel v q) finish)
      ((verb_of-Ending n fuel enough verbs).halts p (omega arith))
      (λ v q l.
        bind-Halts (length q) 0 (body fuel v q) finish ((body-Ending n fuel enough v).halts q l)
          (λ s r t. finish-Halts s r))
