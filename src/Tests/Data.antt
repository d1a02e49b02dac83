-- ===== src/Tests/Data.antt =====
-- The runs, the engine and the rows that the examples share.
use db.Prelude.{refl, true, false, List, [], ◌∷◌, Bytes}
use db.Prelude.Int.{ℤ, pos, negsuc}
use db.Bytes.Order.{cmp}
use db.Storage.Run.{Rec, IsSorted}
use db.Storage.SortedArray.{SortedArray}
use db.Storage.SortedArray.Refines.{Holds}
use db.Storage.Sstable.{file_of}
use db.Storage.Log.Torn.{at_end}
use db.Storage.Entry.{Entry}
use db.Storage.Kv.{Kv}
use db.Storage.Kv.Lookup.{IsValid}
use db.Table.Cell.{Cell, type_i64, type_str}
use db.Table.Schema.{Schema, Row}

abbrev pub key_a : Bytes
key_a = 97 ∷ []

abbrev pub key_b : Bytes
key_b = 98 ∷ []

abbrev pub key_c : Bytes
key_c = 99 ∷ []

-- The MemTable: a value for "a", and a tombstone for "b".
abbrev pub mem_run : List Rec
mem_run =
    record { key = key_a; val = 1 ∷ []; deleted = false }
    ∷ record { key = key_b; val = []; deleted = true }
    ∷ []

-- An SSTable: values for "b" and "c".
abbrev pub old_run : List Rec
old_run =
    record { key = key_b; val = 2 ∷ []; deleted = false }
    ∷ record { key = key_c; val = 3 ∷ []; deleted = false }
    ∷ []

pub mem_run-IsSorted : IsSorted mem_run
unfolding cmp
mem_run-IsSorted = ((refl, tt), (tt, tt))

pub old_run-IsSorted : IsSorted old_run
unfolding cmp
old_run-IsSorted = ((refl, tt), (tt, tt))

abbrev pub mem_array : SortedArray
mem_array = record {
  keys = key_a ∷ key_b ∷ [];
  vals = (1 ∷ []) ∷ [] ∷ [];
  deleted = false ∷ true ∷ [];
}

pub mem_array-Holds : Holds mem_array mem_run
mem_array-Holds = record {
  keys_eq = refl;
  vals_eq = refl;
  deleted_eq = refl;
  sorted = mem_run-IsSorted;
}

abbrev pub engine : Kv
engine = record { log = at_end []; mem = mem_array; main = file_of old_run ∷ [] }

pub engine-IsValid : IsValid engine mem_run (old_run ∷ [])
engine-IsValid = record {
  mem_holds = mem_array-Holds;
  main_eq = refl;
  sorted = (old_run-IsSorted, tt);
}

-- A write and a deletion, as log records.
abbrev pub put_a : Entry
put_a = record { key = key_a; val = 1 ∷ 2 ∷ []; deleted = false }

abbrev pub del_b : Entry
del_b = record { key = key_b; val = []; deleted = true }

-- Cells, and a table t (a int64, b string, c int64) with the primary key (a, b).
abbrev pub int_cell : ℤ → Cell
int_cell x = record { ty = type_i64; i64 = x; str = [] }

abbrev pub str_cell : Bytes → Cell
str_cell s = record { ty = type_str; i64 = pos 0; str = s }

abbrev pub schema : Schema
schema = record {
  table = 116 ∷ [];
  cols =
      record { name = key_a; ty = type_i64 }
      ∷ record { name = key_b; ty = type_str }
      ∷ record { name = key_c; ty = type_i64 }
      ∷ [];
  pkey = 0 ∷ 1 ∷ [];
}

abbrev pub row : Row
row = int_cell (negsuc 4) ∷ str_cell (0 ∷ 120 ∷ []) ∷ int_cell (pos 7) ∷ []

abbrev pub later_row : Row
later_row = int_cell (negsuc 4) ∷ str_cell (1 ∷ []) ∷ int_cell (pos 6) ∷ []
