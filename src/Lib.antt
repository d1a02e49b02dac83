-- ===== src/Lib.antt =====
-- db45: an embedded database in Go. A log-structured key-value store (storage/) carries typed rows
-- (table/), and a small SQL front end (sql/) plans and evaluates over them. These modules model the
-- three layers on the native numbers and prove what each promises to the next.
--
-- Prelude gathers the names that all modules share: Boolean tests, lists indexed by native numbers,
-- and Go's int64 as an integer in range whose arithmetic wraps modulo 2 ^ 64. Bytes has what the
-- code takes from Go's library: bytes.Compare, encoding/binary, io.ReadFull, hash/crc32 and the
-- flip of a word's top bit.
--
-- Bytes/File is os.File's ReadAt and WriteAt on the bytes of a file.
--
-- Storage. Run is the abstract view of a level, a sorted list of records. SortedArray is
-- storage/sortedarray.go, the MemTable (Set is `set_entry`, Del is `del`). Sstable is storage/sstable.go:
-- the search and the cursor over what `index` answers, and in Sstable/Disk the bytes of a file, as
-- CreateFromSorted writes them and Open and index read them. Cursor is the interface SortedKVIter;
-- `Emits c it rs` says that the cursor goes forward over the records rs without an error and then
-- ends. Merge is storage/merge.go, over any Cursor. Filter is storage/filterdel.go. Entry is
-- storage/entry.go. Log is storage/log.go with the replay loop of storage/kv.go. Meta is
-- storage/meta.go. Kv is Get, SetEx, Set and Del of storage/kv.go. Levels puts the MemTable and the
-- SSTables of an engine behind one merged and filtered cursor (KV.Seek), and Ranged is
-- storage/ranged.go on top of it. Engine is the rest of storage/kv.go: the directory of SSTable files, Open
-- on what a process left behind, and Compact with compactLog, shouldMerge and compactSSTable.
--
-- Table. Cell is table/cell.go, Schema is table/schema.go, Db is table/db.go and RowIter is
-- table/rowiter.go. Below Schema, Order and Prefix are about the order of keys, Member about IsPKey and
-- ColIndex, and RoundTrip about whole rows, encoded and decoded.
--
-- Sql. Expr is the tree of sql/expr.go, Parser is sql/parser.go with sql/parse_value.go, and
-- Parser/Ladder is the expression parser of sql/expr.go with parseTuple (sql/planner.go) and commaList
-- (sql/parse_stmt.go) as it calls them. Stmt is sql/stmt.go and Parser/Statement is sql/parse_stmt.go.
-- Eval is sql/eval.go, and its child Wrap is about overflow. Planner is sql/match.go with sql/planner.go up
-- to makeRange; its children set the planned range against the evaluated condition. Select is Range
-- and execCond of sql/planner.go on the store. Engine is sql/engine.go: the catalog under its reserved
-- keys and CREATE TABLE, and in Engine/Exec the other statements, ExecStmt and Exec. A method is a
-- function from the engine to the engine behind the call and its result (`Method`). In its child
-- modules, Follows and Known say what a call leaves of the catalog, Invariant and Sound go through the
-- statements, Walk and Selected are about the loops over rows, Update about SET, and Writes about
-- CREATE TABLE and INSERT.
--
-- State is passed explicitly: an operation takes the engine or the file and returns it. What a file
-- system does with a write to the log or the metadata is an argument (`Io`, `TruncateIo`), and so are
-- encoding/json (`Json`, `SchemaJson`, with no law but, where a theorem says so, that one text reads
-- back), the names that fmt.Sprintf makes (`name_of`, `label`) and the comparison of level sizes in
-- floating point (`Growth`). The writes to an SSTable file are taken to succeed, whatever a
-- file of that name held. A Go panic is a constructor, or none where a function returns an Option.
--
-- Loops on fuel: the binary searches take the length; the replay loop one round for each byte and
-- one more; a step forward of the merged cursor uses none, and one that turns takes what the caller
-- gives; the tombstone filter and the writer of an SSTable need one more than the records ahead, and
-- merge_files gives them one more than the records of both files; Compact needs two rounds for each
-- level, the MemTable's included; the expression parser takes a unit for each call on the way down, for
-- which sixteen for each byte and thirteen more are enough, for a whole statement too: Exec gives it
-- that. The loops of Exec over rows take the fuel of the store's cursor, and need more than the records of
-- all levels.
--
-- Not modelled: failing writes to SSTable files, closing files, the cursor that a failing Prev leaves to a
-- descending Range (it stays as it was), the negative count of a corrupted SSTable (0 here), what the
-- loops of sql/engine.go do behind an error of the store's cursor, which they drop (the result is stuck
-- there), and the system calls of storage/fsync.go, which have no result that the program computes with.
pub mod Prelude
pub mod Bytes
pub mod Storage
pub mod Table
pub mod Sql
pub mod Tests
