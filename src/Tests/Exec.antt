-- ===== src/Tests/Exec.antt =====
-- Statements on a small engine.
use Prim.Native.String.{String}
use Prim.Native.Char.{code}
use db.Prelude.{
  ℕ, ◌≡◌, refl, sym, ◌∙◌, subst, false, List, [], ◌∷◌, none, some, Bytes, arith, get_elem?,
}
use db.Prelude.Int.{pos, negsuc, wrap64, ◌+ℤ◌}
use db.Bytes.Order.{cmp}
use db.Storage.Log.{Io, succeeds, sync_fails}
use db.Storage.SortedArray
use db.Storage.Sstable
use db.Storage.Sstable.{file_of}
use db.Sql.Eval.{eval_expr, short_circuit, eval_bin_op, arithmetic}
use db.Storage.Kv.{Kv, Got, missing, found, get}
use db.Storage.Kv
use db.Table.Cell.{type_i64}
use db.Table.Schema.{Schema, Row, encode_key, col_index, is_pkey, is_member}
use db.Sql.Expr.{column, bin_op, op_add}
use db.Sql.Stmt.{StmtCreatTable, StmtInsert, ExprAssign, Stmt}
use db.Sql.Engine.{
  SchemaJson, Engine, ok, error, table_exists, get_schema, cached, create_table, pkey_indices,
  schema_key, is_found, no_pkey,
}
use db.Sql.Engine.Exec.{exec, exec_stmt, targets, new_vals, assign}
use db.Sql.Engine.Follows.{IsSound, Follows, get_schema_lem, schema_in}
use db.Sql.Engine.Sound.{exec-IsSound, exec_stmt-Follows}
use db.Sql.Engine.Update.{Assigned, encode_key-assign, assign-Assigned}
use db.Sql.Engine.Writes.{create_table-known}
use db.Sql.Parser.Statement.{parse_stmt}
use db.Sql.Parser.Statement.Halts.{Halts}
use db.Sql.Parser.Statement.Total.{parse_stmt-Halts}
use db.Sql.Parser.Statement.Names.{IsPlain}
use db.Tests.Data.{
  mem_run, old_run, engine, engine-IsValid, schema, row, int_cell, str_cell, key_a, key_c,
}

-- A text as its bytes.
abbrev codes : String → Bytes
codes String.[] = []
codes (String.◌∷◌ c s) = code c ∷ codes s

parse_stmt-Halts_example : Halts 0 (parse_stmt 300 (codes "delete from t"))
parse_stmt-Halts_example = parse_stmt-Halts 300 (codes "delete from t") (omega arith)

abbrev json : SchemaJson
json = record { marshal = λ s. some (1 ∷ []); unmarshal = λ b. some schema }

abbrev db_engine : Engine
db_engine = record { kv = engine; tables = [] }

only-IsPlain :
    (s : Schema) (g : Got) → schema_in json (old_run ∷ []) none g ≡ ok s → IsPlain s.table
unfolding schema_in
only-IsPlain s Kv.error h = cc
only-IsPlain s missing h = cc
only-IsPlain s (found val) h =
    let same : schema ≡ s = cc in
    subst (λ (t : Schema). IsPlain t.table) same (λ e. absurd (omega arith))

db_engine-IsSound : IsSound json (old_run ∷ []) db_engine
unfolding cached
db_engine-IsSound = record {
  run = mem_run;
  valid = engine-IsValid;
  plain = λ name s h.
      only-IsPlain s (get engine (schema_key name))
        (sym (get_schema_lem json (old_run ∷ []) name db_engine) ∙ h);
}

exec-IsSound_example :
    IsSound json
      (old_run ∷ [])
      (exec json
        (λ n. n ∷ [])
        (λ n. sync_fails)
        9
        (codes "create table u (a int64, primary key (a))")
        db_engine).0
exec-IsSound_example =
    exec-IsSound json (old_run ∷ []) (λ n. n ∷ []) (λ n. sync_fails) 9
      (codes "create table u (a int64, primary key (a))") db_engine db_engine-IsSound

abbrev empty_table : Stmt
empty_table = Stmt.delete (record { table = codes "t"; cond = none })

exec_stmt-Follows_example :
    Follows json
      (old_run ∷ [])
      db_engine
      (exec_stmt json (λ n. n ∷ []) (λ n. succeeds) 9 empty_table db_engine).0
exec_stmt-Follows_example =
    exec_stmt-Follows json (old_run ∷ []) (λ n. n ∷ []) (λ n. succeeds) 9 empty_table db_engine tt
      db_engine-IsSound

-- SET c = a + c
abbrev sum : List ExprAssign
sum = record { column = key_c; expr = bin_op op_add (column key_a) (column key_c) } ∷ []

abbrev summed : Row
summed = int_cell (negsuc 4) ∷ str_cell (0 ∷ 120 ∷ []) ∷ int_cell (pos 2) ∷ []

targets-sum : targets schema sum ≡ ok (2 ∷ [])
unfolding targets col_index is_pkey is_member cmp
targets-sum = refl

sum_vals : new_vals schema row sum (2 ∷ []) ≡ ok (int_cell (pos 2) ∷ [])
unfolding new_vals eval_expr col_index cmp short_circuit eval_bin_op arithmetic wrap64 ◌+ℤ◌
sum_vals = refl

sum_row : assign row (2 ∷ []) (int_cell (pos 2) ∷ []) ≡ ok summed
unfolding assign
sum_row = refl

encode_key-assign_example : encode_key schema summed ≡ encode_key schema row
encode_key-assign_example =
    encode_key-assign schema sum (2 ∷ []) (int_cell (pos 2) ∷ []) row summed targets-sum sum_row

assign-Assigned_example :
    Assigned schema row summed sum (2 ∷ [])
    × ((i : ℕ) → is_member i (2 ∷ []) ≡ false → get_elem? summed i ≡ get_elem? row i)
assign-Assigned_example =
    assign-Assigned schema sum (2 ∷ []) (int_cell (pos 2) ∷ []) row summed targets-sum sum_vals
      sum_row

abbrev creation : StmtCreatTable
creation = record {
  table = codes "u";
  cols = record { name = key_a; ty = type_i64 } ∷ [];
  pkey = key_a ∷ [];
}

abbrev created : Schema
created = record {
  table = codes "u";
  cols = record { name = key_a; ty = type_i64 } ∷ [];
  pkey = 0 ∷ [];
}

abbrev u_json : SchemaJson
u_json = record { marshal = λ s. some (1 ∷ []); unmarshal = λ b. some created }

no_u : is_found (get engine (schema_key (codes "u"))) ≡ false
unfolding get SortedArray.state SortedArray.search SortedArray.binary_search SortedArray.search_loop
    cmp Kv.get_main Sstable.seek Sstable.search Sstable.search_loop Sstable.load Kv.look
    Sstable.valid Sstable.key
no_u = refl

u_pkey : pkey_indices (no_pkey creation) (key_a ∷ []) ≡ ok (0 ∷ [])
unfolding pkey_indices col_index cmp
u_pkey = refl

create_table-known_example :
    let (e', r) = create_table u_json succeeds creation db_engine in
    (r ≡ ok tt)
    × ((get_schema u_json (codes "u") (record e' { tables = [] })).1 ≡ ok created)
    × ((io : Io) (again : StmtCreatTable)
        → again.table ≡ codes "u"
        → create_table u_json io again e' ≡ (e', error table_exists))
create_table-known_example =
    create_table-known u_json db_engine mem_run (old_run ∷ []) engine-IsValid creation (0 ∷ [])
      (1 ∷ []) no_u u_pkey refl refl

-- The engine with the table in its cache, and a new row's values with a type that is not set.
abbrev known_engine : Engine
known_engine = record { kv = engine; tables = (codes "t", schema) ∷ [] }

abbrev insertion : StmtInsert
insertion = record { table = codes "t"; value = row }

t_known : get_schema json (codes "t") known_engine ≡ (known_engine, ok schema)
unfolding get_schema cached cmp
t_known = refl
