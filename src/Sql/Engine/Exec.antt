-- ===== src/Sql/Engine/Exec.antt =====
-- sql/engine.go: the statements on the rows of a table. The names of unnamed columns, which fmt.Sprintf
-- makes, are the argument `label`.
use db.Prelude.{
  ℕ, zero, suc, ◌+◌, ◌*◌, Bool, true, false, ◌&&◌, List, [], ◌∷◌, Option, none, some, Bytes, length,
  get_elem?, set, ltb, ◌==◌, if◌then◌else◌,
}
use db.Storage.Kv.{Kv, Done}
use db.Storage.Cursor.{Cursor}
use db.Storage.Log.{Io}
use db.Storage.Levels.{kv_cursor}
use db.Storage.Ranged.{ranged_cursor}
use db.Table.Cell.{Cell}
use db.Table.Schema.{Column, Schema, Row, col_index, is_pkey, with_type}
use db.Table.Db
use db.Table.RowIter.{RowIterator, past, decoded, broken, panicked, decode_row}
use db.Sql.Expr.{Expr, column, constant, bin_op, un_op, tuple}
use db.Sql.Stmt.{StmtSelect, ExprAssign, StmtInsert, StmtUpdate, StmtDelete, Stmt}
use db.Sql.Eval.{eval_expr, same_type}
use db.Sql.Select.{exec_cond}
use db.Sql.Parser.Statement.{parse_stmt}
use db.Sql.Parser.Statement
use db.Sql.Engine.{
  SchemaJson, Engine, no_such_column, cannot_select, wrong_count, duplicate_key, pkey_assigned,
  type_mismatch, bad_statement, deleted_before, Result, ok, error, panic, stuck, bind, Method,
  ◌>>=◌, ◌>>◌, lift, guard, of_option, of_eval, stored, get_schema, create_table,
}

pub record SqlResult : Type 0 where
  pub updated : ℕ
  pub header : List Bytes
  pub values : List Row

-- checkExprCols; a tuple falls through.
unfoldable pub check_expr_cols : Schema → Expr → Bool
check_expr_cols schema (column name) = elim (col_index schema name) [ none ↦ false | some i ↦ true ]
check_expr_cols schema (constant c) = true
check_expr_cols schema (bin_op op l r) = check_expr_cols schema l && check_expr_cols schema r
check_expr_cols schema (un_op op kid) = check_expr_cols schema kid
check_expr_cols schema (tuple kids) = true

unfoldable pub expr_label : (ℕ → Bytes) → Expr → ℕ → Bytes
expr_label label (column name) i = name
expr_label label _ i = label (suc i)

-- The loop over the output columns, from column i on.
unfoldable pub header_from : (ℕ → Bytes) → Schema → ℕ → List Expr → Result (List Bytes)
header_from label schema i [] = ok []
header_from label schema i (ex ∷ cols) =
    let rest = header_from label schema (suc i) cols in
    if check_expr_cols schema ex
    then bind rest (λ names. ok (expr_label label ex i ∷ names))
    else error no_such_column

unfoldable pub project_row : Schema → List Expr → Row → Result Row
project_row schema [] full = ok []
project_row schema (ex ∷ exprs) full =
    bind (of_eval (eval_expr schema full ex))
      (λ c. bind (project_row schema exprs full) (λ out. ok (c ∷ out)))

module _ {I : Type 0} (c : Cursor I) where
  -- it.Next() with its error dropped: where the row does not decode, the iterator is not valid any more.
  unfoldable pub next_quiet : RowIterator I → Result (RowIterator I)
  next_quiet r = elim (c.next r.iter) [
    | none ↦ stuck
    | some it ↦
        if c.valid it
        then elim (decode_row r.schema (c.key it) (c.val it)) [
          | past ↦ ok (record r { iter = it; valid = false })
          | decoded row ↦ ok (record r { iter = it; valid = true; row = row })
          | broken ↦ ok (record r { iter = it; valid = false })
          | panicked ↦ panic
        ]
        else ok (record r { iter = it; valid = false })
  ]

  -- for ; it.Valid(); it.Next() { x, err := f(it.Row()); ...; rows = append(rows, x) }
  unfoldable pub walk {ℓ} : {A : Type ℓ} → (Row → Result A) → ℕ → RowIterator I → Result (List A)
  walk f zero r = stuck
  walk f (suc n) r = elim r.valid [
    | false ↦ ok []
    | true ↦
        bind (f r.row) (λ x. bind (next_quiet r) (λ r'. bind (walk f n r') (λ xs. ok (x ∷ xs))))
  ]

-- execCond, and the loop over what it selects; an error or a panic of execCond is an error here.
unfoldable pub select_rows {ℓ} :
    {A : Type ℓ} → (Row → Result A) → ℕ → Kv → Schema → Option Expr → Result (List A)
select_rows f fuel kv schema cond =
    bind (of_option cannot_select (exec_cond fuel kv schema cond))
      (λ it. walk (ranged_cursor (kv_cursor fuel)) f fuel it)

unfoldable pub matching_rows : ℕ → Kv → Schema → Option Expr → Result (List Row)
unfolding select_rows
matching_rows fuel kv schema cond = select_rows ok fuel kv schema cond

unfoldable pub exec_select :
    SchemaJson → (ℕ → Bytes) → ℕ → StmtSelect → Method (List Bytes × List Row)
exec_select json label fuel s = do
  schema ← get_schema json s.table
  header ← lift (header_from label schema 0 s.cols)
  rows ← λ e. (e, select_rows (project_row schema s.cols) fuel e.kv schema s.cond)
  lift (ok (header, rows))

-- row[i] = s.value[i]; row[i].Type = schema.Cols[i].Type; the lengths are equal.
unfoldable pub typed_row : List Cell → List Column → Row
typed_row (v ∷ value) (c ∷ cols) = with_type v c.ty ∷ typed_row value cols
typed_row _ _ = []

abbrev pub of_store : Engine → Option (Kv × Done) → Engine × Result Bool
of_store e none = (e, panic)
of_store e (some r) = stored e r

unfoldable pub exec_insert : SchemaJson → Io → StmtInsert → Method ℕ
exec_insert json io s = do
  schema ← get_schema json s.table
  guard (length s.value == length schema.cols) wrong_count
  done ← λ e. of_store e (Db.insert io e.kv schema (typed_row s.value schema.cols))
  lift (if done then ok 1 else error duplicate_key)

-- The indices of the columns that SET assigns.
unfoldable pub targets : Schema → List ExprAssign → Result (List ℕ)
targets schema [] = ok []
targets schema (asn ∷ asns) = bind (of_option no_such_column (col_index schema asn.column)) (λ idx.
    if is_pkey schema idx
    then error pkey_assigned
    else bind (targets schema asns) (λ idxs. ok (idx ∷ idxs)))

abbrev pub assigned_type : Column → Cell → Result Cell
assigned_type col c = if same_type c.ty col.ty then ok c else error type_mismatch

-- Every right-hand side, on the row before the update.
unfoldable pub new_vals : Schema → Row → List ExprAssign → List ℕ → Result (List Cell)
new_vals schema row [] idxs = ok []
new_vals schema row (asn ∷ asns) [] = panic
new_vals schema row (asn ∷ asns) (idx ∷ idxs) = bind (of_eval (eval_expr schema row asn.expr)) (λ c.
    elim (get_elem? schema.cols idx) [
      | none ↦ panic
      | some col ↦
          bind (assigned_type col c)
            (λ v. bind (new_vals schema row asns idxs) (λ vals. ok (v ∷ vals)))
    ])

-- row[idxs[i]] = newVals[i], for each i in order.
unfoldable pub assign : Row → List ℕ → List Cell → Result Row
assign row (idx ∷ idxs) (v ∷ vals) =
    if ltb idx (length row) then assign (set row idx v) idxs vals else panic
assign row _ _ = ok row

-- The loop of execUpdate; the nth write to the log meets `ios n`.
unfoldable pub update_rows :
    (ℕ → Io) → ℕ → Schema → List ExprAssign → List ℕ → List Row → Method (Unit {0})
update_rows ios n schema asns idxs [] = lift (ok tt)
update_rows ios n schema asns idxs (row ∷ rows) = do
  vals ← lift (new_vals schema row asns idxs)
  row' ← lift (assign row idxs vals)
  done ← λ e. of_store e (Db.update (ios n) e.kv schema row')
  update_rows ios (suc n) schema asns idxs rows

unfoldable pub exec_update : SchemaJson → (ℕ → Io) → ℕ → StmtUpdate → Method ℕ
exec_update json ios fuel s = do
  schema ← get_schema json s.table
  idxs ← lift (targets schema s.value)
  rows ← λ e. (e, matching_rows fuel e.kv schema s.cond)
  update_rows ios 0 schema s.value idxs rows
  lift (ok (length rows))

abbrev pub counted : ℕ → Engine × Result Bool → Engine × Result Bool
counted n (e, error x) = (e, error (deleted_before n x))
counted n r = r

-- The loop of execDelete: m rows are deleted before.
unfoldable pub delete_rows : (ℕ → Io) → ℕ → ℕ → Schema → List Row → Method ℕ
delete_rows ios n m schema [] = lift (ok m)
delete_rows ios n m schema (row ∷ rows) = do
  done ← λ e. counted m (of_store e (Db.delete (ios n) e.kv schema row))
  delete_rows ios (suc n) (if done then suc m else m) schema rows

unfoldable pub exec_delete : SchemaJson → (ℕ → Io) → ℕ → StmtDelete → Method ℕ
exec_delete json ios fuel s = do
  schema ← get_schema json s.table
  rows ← λ e. (e, matching_rows fuel e.kv schema s.cond)
  delete_rows ios 0 0 schema rows

abbrev pub rows_affected : ℕ → SqlResult
rows_affected n = record { updated = n; header = []; values = [] }

unfoldable pub exec_stmt : SchemaJson → (ℕ → Bytes) → (ℕ → Io) → ℕ → Stmt → Method SqlResult
exec_stmt json label ios fuel (Stmt.create_table s) =
    create_table json (ios 0) s >> lift (ok (rows_affected 0))
exec_stmt json label ios fuel (Stmt.select s) = exec_select json label fuel s >>= λ r.
    lift (ok (record { updated = 0; header = r.0; values = r.1 }))
exec_stmt json label ios fuel (Stmt.insert s) =
    exec_insert json (ios 0) s >>= λ n. lift (ok (rows_affected n))
exec_stmt json label ios fuel (Stmt.update s) =
    exec_update json ios fuel s >>= λ n. lift (ok (rows_affected n))
exec_stmt json label ios fuel (Stmt.delete s) =
    exec_delete json ios fuel s >>= λ n. lift (ok (rows_affected n))

abbrev pub parsed : Statement.Result Stmt → Result Stmt
parsed (Statement.done s p) = ok s
parsed (Statement.refused e) = error (bad_statement e)
parsed Statement.stuck = stuck

-- Exec; the parser has fuel for every text.
unfoldable pub exec : SchemaJson → (ℕ → Bytes) → (ℕ → Io) → ℕ → Bytes → Method SqlResult
exec json label ios fuel sql = do
  stmt ← lift (parsed (parse_stmt (16 * length sql + 13) sql))
  exec_stmt json label ios fuel stmt
