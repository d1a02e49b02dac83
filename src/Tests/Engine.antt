-- ===== src/Tests/Engine.antt =====
-- A written SSTable, and an engine with two of them: flush, compaction and a restart.
use db.Prelude.{
  ℕ, ◌*◌, ◌^◌, ◌≤◌, ◌<◌, ◌≡◌, ◌≢◌, refl, ap, ◌∙◌, false, true, none, some, List, [], ◌∷◌, Option,
  Bytes, All, arith, leb, length,
}
use db.Prelude.Int.{pos}
use db.Bytes.Order.{cmp}
use db.Storage.Run.{Rec}
use db.Storage.SortedArray
use db.Storage.Sstable.{file_of}
use db.Storage.Sstable.Disk.{create, open_file}
use db.Storage.Sstable.Disk.Read.{Sized}
use db.Storage.Sstable.Disk.Write.{data_size}
use db.Storage.Sstable.Disk.Open.{open_file-create}
use db.Storage.Entry.{Entry}
use db.Storage.Log.{apply, truncate_fails, all_succeed, open_log, recovered, replay}
use db.Storage.Log.Replay.{log_bytes}
use db.Storage.Log.Torn.{at_end, replay_clean}
use db.Storage.Meta.{KvMetaData, Io, succeeds, open_store, open_item, no_data}
use db.Storage.Meta
use db.Storage.Meta.Store.{open_store-IsLoaded}
use db.Storage.Kv
use db.Storage.Kv.{Kv}
use db.Storage.Engine.{Engine, Dir, Growth, update, compact_log, compact_pair, compact}
use db.Storage.Engine.Stored.{IsStored}
use db.Storage.Engine.Flush.{get-compact_log}
use db.Storage.Engine.Coalesce.{coalesced}
use db.Storage.Engine.Pair.{get-compact_pair}
use db.Storage.Engine.Compact.{get-compact}
use db.Storage.Engine.Restart.{restart, restart-compact_log}
use db.Tests.Data.{
  mem_run, old_run, mem_run-IsSorted, old_run-IsSorted, mem_array, mem_array-Holds, key_a, key_b,
}
use db.Tests.Merge.{list_cursor, list_cursor-Emits}
use db.Tests.Meta.{text_form-ReadsBack, text_form}

-- A file of the name that is there already is written over.
open_file-create_example :
    (file : Bytes) × (create list_cursor 3 5 mem_run (1 ∷ 2 ∷ []) ≡ some (2, file))
    × (open_file file ≡ some (file_of mem_run))
open_file-create_example =
    open_file-create list_cursor 3 5 mem_run (1 ∷ 2 ∷ []) mem_run (list_cursor-Emits mem_run)
      (omega arith) (omega arith) (omega arith) (omega arith)

abbrev written_bytes : Option (ℕ × Bytes) → Bytes
written_bytes none = []
written_bytes (some (n, file)) = file

abbrev written : List Rec → Bytes
written rs = written_bytes (create list_cursor 3 2 rs [])

written-opens :
    (rs : List Rec)
    → All Sized rs
    → length rs ≤ 2
    → data_size rs < 100
    → open_file (written rs) ≡ some (file_of rs)
written-opens rs z l s =
    let (file, made, back) =
      open_file-create list_cursor 3 2 rs [] rs (list_cursor-Emits rs) z l (omega arith)
        (omega arith) in
    ap open_file (ap written_bytes made) ∙ back

abbrev name_of : ℕ → Bytes
name_of v = v ∷ []

name_of-injective : (u v : ℕ) → u < 2 ^ 64 → v < 2 ^ 64 → name_of u ≡ name_of v → u ≡ v
name_of-injective u v h g e = cc

-- Version 2 names the files of versions 2 and 1.
abbrev data_2 : KvMetaData
data_2 = record { version = 2; sstables = name_of 2 ∷ name_of 1 ∷ [] }

abbrev dir_2 : Dir
dir_2 =
    update (name_of 2) (some (written mem_run))
      (update (name_of 1) (some (written old_run)) (λ n. none))

abbrev engine_2 : Engine
engine_2 = record {
  kv = record { log = at_end []; mem = mem_array; main = file_of mem_run ∷ file_of old_run ∷ [] };
  meta = record {
    first = record { file = []; meta = data_2; valid = true };
    second = record { file = []; meta = no_data; valid = false };
  };
  version = 2;
  dir = dir_2;
}

engine_2-IsStored : IsStored text_form name_of engine_2 mem_run (mem_run ∷ old_run ∷ [])
unfolding Meta.get cmp
engine_2-IsStored = record {
  valid = record {
    mem_holds = mem_array-Holds;
    main_eq = refl;
    sorted = (mem_run-IsSorted, (old_run-IsSorted, tt));
  };
  opens = (
    written-opens mem_run (omega arith) (omega arith) (omega arith),
    (written-opens old_run (omega arith) (omega arith) (omega arith), tt),
  );
  named = ((2, omega arith, refl), ((1, omega arith, refl), tt));
  distinct = ((two_names, tt), (tt, tt));
  up_to = omega arith;
}
  where
    two_names : name_of 2 ≢ name_of 1
    two_names e = absurd (ground arith)

get-compact_log_example :
    (e' : Engine) × (compact_log text_form name_of succeeds all_succeed engine_2 ≡ (e', true))
    × IsStored text_form name_of e' [] (mem_run ∷ mem_run ∷ old_run ∷ [])
    × (e'.version ≡ 3)
    × ((k : Bytes) → Kv.get e'.kv k ≡ Kv.get engine_2.kv k)
get-compact_log_example =
    get-compact_log text_form name_of name_of-injective engine_2 mem_run (mem_run ∷ old_run ∷ [])
      engine_2-IsStored (omega arith) (omega arith) (omega arith)

get-compact_pair_example :
    (e' : Engine) × (compact_pair text_form name_of succeeds engine_2 0
        (file_of mem_run)
        (file_of old_run)
      ≡ (e', true))
    × IsStored text_form name_of e' mem_run (coalesced true mem_run old_run ∷ [])
    × (e'.version ≡ 3)
    × ((k : Bytes) → Kv.get e'.kv k ≡ Kv.get engine_2.kv k)
get-compact_pair_example =
    get-compact_pair text_form name_of name_of-injective engine_2 mem_run [] mem_run old_run []
      engine_2-IsStored (omega arith) (omega arith) (omega arith) (omega arith)

abbrev growth : Growth
growth = record { off = false; within = λ lower upper. leb lower (upper * 2) }

get-compact_example :
    (e' : Engine) × (rs' : List Rec) × (runs' : List (List Rec)) × (compact text_form name_of 7
        (pos 2)
        growth
        (λ v. succeeds)
        all_succeed
        engine_2
      ≡ some (e', true))
    × IsStored text_form name_of e' rs' runs'
    × (length runs' ≤ 3)
    × ((k : Bytes) → Kv.get e'.kv k ≡ Kv.get engine_2.kv k)
get-compact_example =
    get-compact text_form name_of name_of-injective growth (λ v. succeeds) (λ v. refl) 7 (pos 2)
      engine_2 mem_run (mem_run ∷ old_run ∷ []) engine_2-IsStored (omega arith)
      (record { sized = (omega arith, (omega arith, (omega arith, tt))); addressed = omega arith })
      (omega arith)

-- An engine that was just made: no level, and the MemTable in the log.
abbrev entries : List Entry
entries =
    record { key = key_a; val = 1 ∷ []; deleted = false }
    ∷ record { key = key_b; val = []; deleted = true }
    ∷ []

abbrev engine_0 : Engine
engine_0 = record {
  kv = record { log = at_end (log_bytes entries); mem = mem_array; main = [] };
  meta = open_store text_form [] [];
  version = 0;
  dir = λ n. none;
}

engine_0-IsStored : IsStored text_form name_of engine_0 mem_run []
unfolding Meta.get open_store open_item
engine_0-IsStored = record {
  valid = record { mem_holds = mem_array-Holds; main_eq = refl; sorted = tt };
  opens = tt;
  named = tt;
  distinct = tt;
  up_to = omega arith;
}

engine_0-replay :
    replay (open_log engine_0.kv.log.content) ≡ recovered mem_array (at_end (log_bytes entries))
unfolding SortedArray.set_entry SortedArray.del SortedArray.search SortedArray.binary_search
    SortedArray.search_loop cmp apply
engine_0-replay = replay_clean entries (omega arith, (omega arith, tt))

restart-compact_log_example :
    (e3 : Engine) × (restart text_form
        (compact_log text_form name_of succeeds truncate_fails engine_0).0
      ≡ some e3)
    × ((k : Bytes) → Kv.get e3.kv k ≡ Kv.get engine_0.kv k)
restart-compact_log_example =
    restart-compact_log text_form name_of name_of-injective engine_0 mem_run [] engine_0-IsStored
      (at_end (log_bytes entries)) truncate_fails (open_store-IsLoaded text_form [] [])
      (text_form-ReadsBack _) engine_0-replay (omega arith) (omega arith) (omega arith)
