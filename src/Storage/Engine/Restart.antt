-- ===== src/Storage/Engine/Restart.antt =====
-- storage/kv.go: `Open` after a flush, whatever became of the truncation of the log.
use db.Prelude.{
  ◌+◌, ◌*◌, ◌^◌, ◌<◌, ℕ, ◌≡◌, refl, sym, ap, ◌∙◌, List, [], ◌∷◌, map, Option, some, Bytes, All,
  length,
}
use db.Storage.Run.{Rec, EntryState, absent, present, tombstone, find}
use db.Storage.Run.Laws.{find-nil}
use db.Storage.SortedArray
use db.Storage.SortedArray.{SortedArray}
use db.Storage.SortedArray.Refines.{Holds}
use db.Storage.Sstable.{file_of}
use db.Storage.Sstable.Disk.Read.{Sized}
use db.Storage.Sstable.Disk.Write.{data_size}
use db.Storage.Merge.Reference.{first_hit, or_else}
use db.Storage.Log.{
  Log, TruncateIo, all_succeed, truncate_fails, seek_fails, sync_fails, truncate, open_log, replay,
  recovered,
}
use db.Storage.Log.Torn.{at_end, replay_clean}
use db.Storage.Meta.{Json, ReadsBack, KvMetaStore, open_store, succeeds}
use db.Storage.Meta
use db.Storage.Meta.Store.{IsLoaded, reopen-IsLoaded}
use db.Storage.Kv
use db.Storage.Kv.{Kv}
use db.Storage.Kv.Lookup.{answer, get-first_hit}
use db.Storage.Engine.{Engine, start, open_engine, reset, compact_log}
use db.Storage.Engine.Stored.{IsStored, Opens, open_levels-Opens, installed}
use db.Storage.Engine.Flush.{flushed-IsStored, empty-Holds, cleared}

module _ (json : Json) where
  -- The process ends and the engine is opened again on the files.
  abbrev pub restart : Engine → Option Engine
  restart e = open_engine json e.dir e.meta.first.file e.meta.second.file e.kv.log.content

  abbrev reopened : Engine → SortedArray → Log → List (List Rec) → Engine
  reopened e mem log runs = record {
    kv = record { log = log; mem = mem; main = map file_of runs };
    meta = e.meta;
    version = (Meta.get e.meta).version;
    dir = e.dir;
  }

  start-reopened :
      (e : Engine) (runs : List (List Rec)) (mem : SortedArray) (log : Log)
      → Opens e.dir (Meta.get e.meta).sstables runs
      → start e.dir e.meta (recovered mem log) ≡ some (reopened e mem log runs)
  unfolding start
  start-reopened e runs mem log h =
      rw (open_levels-Opens e.dir (Meta.get e.meta).sstables runs h) refl

  restart-reopened :
      (e : Engine) (runs : List (List Rec)) (mem : SortedArray) (log : Log)
      → Opens e.dir (Meta.get e.meta).sstables runs
      → IsLoaded json e.meta
      → replay (open_log e.kv.log.content) ≡ recovered mem log
      → restart e ≡ some (reopened e mem log runs)
  unfolding open_engine
  restart-reopened e runs mem log h i r =
      rw (reopen-IsLoaded json e.meta i, r) (start-reopened e runs mem log h)

or_else_twice : (s t : EntryState) → or_else s (or_else s t) ≡ or_else s t
or_else_twice absent t = refl
or_else_twice (present v) t = refl
or_else_twice tombstone t = refl

module _ (json : Json) (name_of : ℕ → Bytes)
    (injective : (u v : ℕ) → u < 2 ^ 64 → v < 2 ^ 64 → name_of u ≡ name_of v → u ≡ v) (e : Engine)
    (rs : List Rec) (runs : List (List Rec)) (h : IsStored json name_of e rs runs) where
  -- The state that is found again answers as the running engine does: with the MemTable in the log
  -- still, or in the first level only.
  twice-get :
      (e1 : Engine) (mem : SortedArray) (log : Log)
      → Holds mem rs
      → (k : Bytes) → Kv.get (reopened json e1 mem log (rs ∷ runs)).kv k ≡ Kv.get e.kv k
  twice-get e1 mem log held k =
      get-first_hit (reopened json e1 mem log (rs ∷ runs)).kv rs (rs ∷ runs) k (record {
        mem_holds = held;
        main_eq = refl;
        sorted = (h.valid.mem_holds.sorted, h.valid.sorted);
      })
      ∙ ap answer (or_else_twice (find k rs) (first_hit k runs))
      ∙ sym (get-first_hit e.kv rs runs k h.valid)

  once-get :
      (e1 : Engine) (log : Log) (k : Bytes)
      → Kv.get (reopened json e1 SortedArray.empty log (rs ∷ runs)).kv k ≡ Kv.get e.kv k
  once-get e1 log k =
      get-first_hit (reopened json e1 SortedArray.empty log (rs ∷ runs)).kv [] (rs ∷ runs) k
        (record {
          mem_holds = empty-Holds;
          main_eq = refl;
          sorted = (h.valid.mem_holds.sorted, h.valid.sorted);
        })
      ∙ ap (λ (t : EntryState). answer (or_else t (first_hit k (rs ∷ runs)))) (find-nil k)
      ∙ sym (get-first_hit e.kv rs runs k h.valid)

  abbrev Restarts : Engine → Type 0
  Restarts e2 =
      (e3 : Engine) × (restart json e2 ≡ some e3) × ((k : Bytes) → Kv.get e3.kv k ≡ Kv.get e.kv k)

  -- In a sound engine whose file names are injective, whose metadata is what its slots hold and whose log
  -- replays to its MemTable, with records whose key and value take less than 2 ^ 32 bytes and with file
  -- and version in range, where the text that encoding/json gives for the flushed metadata reads back:
  -- after a flush whose file and metadata are written, whichever step of the log's truncation fails, and
  -- the log's file is then as it was or empty, or where none fails, opening the engine again on the files
  -- succeeds, and `Get` answers for every key what it did before the flush.
  pub restart-compact_log :
      (log : Log) (tio : TruncateIo)
      → IsLoaded json e.meta
      → ReadsBack json (record {
        version = e.version + 1;
        sstables = name_of (e.version + 1) ∷ (Meta.get e.meta).sstables;
      })
      → replay (open_log e.kv.log.content) ≡ recovered e.kv.mem log
      → e.version + 1 < 2 ^ 64
      → All Sized rs
      → 8 + 8 * length rs + data_size rs < 2 ^ 63
      → (e3 : Engine) × (restart json (compact_log json name_of succeeds tio e).0 ≡ some e3)
        × ((k : Bytes) → Kv.get e3.kv k ≡ Kv.get e.kv k)
  unfolding reset truncate
  restart-compact_log log tio i back r l z s =
      let (m, file, run, stored, loaded) =
        flushed-IsStored json name_of injective e rs runs h l z s in
      let e1 = installed json name_of e m file (rs ∷ runs) in
      let (e3, again, same) = after tio e1 stored.opens (loaded back i) refl in
      (e3, rw (run tio) again, same)
    where
      after :
          (tio : TruncateIo) (e1 : Engine)
          → Opens e1.dir (Meta.get e1.meta).sstables (rs ∷ runs)
          → IsLoaded json e1.meta
          → e1.kv.log ≡ e.kv.log
          → Restarts (reset tio e1).0
      after truncate_fails e1 o i' same = (
        reopened json e1 e.kv.mem log (rs ∷ runs),
        restart-reopened json e1 (rs ∷ runs) e.kv.mem log o i'
            (ap (λ (x : Log). replay (open_log x.content)) same ∙ r),
        twice-get e1 e.kv.mem log h.valid.mem_holds,
      )
      after all_succeed e1 o i' same = (
        reopened json e1 SortedArray.empty (at_end []) (rs ∷ runs),
        restart-reopened json (cleared json name_of e1) (rs ∷ runs) SortedArray.empty (at_end []) o
            i' (replay_clean [] tt),
        once-get e1 (at_end []),
      )
      after seek_fails e1 o i' same = (
        reopened json e1 SortedArray.empty (at_end []) (rs ∷ runs),
        restart-reopened json (cleared json name_of e1) (rs ∷ runs) SortedArray.empty (at_end []) o
            i' (replay_clean [] tt),
        once-get e1 (at_end []),
      )
      after sync_fails e1 o i' same = (
        reopened json e1 SortedArray.empty (at_end []) (rs ∷ runs),
        restart-reopened json (cleared json name_of e1) (rs ∷ runs) SortedArray.empty (at_end []) o
            i' (replay_clean [] tt),
        once-get e1 (at_end []),
      )
