-- ===== src/Storage/Engine/Flush.antt =====
-- storage/kv.go: `compactLog` moves the MemTable to a new first level.
use db.Prelude.{
  ℕ, suc, ◌+◌, ◌*◌, ◌^◌, ◌<◌, ◌≡◌, refl, sym, ap, subst, ◌∙◌, true, List, [], ◌∷◌, some, arith,
  Bytes, All, length,
}
use db.Storage.Run.{Rec, EntryState}
use db.Storage.Run.Laws.{find-nil}
use db.Storage.SortedArray
use db.Storage.SortedArray.Refines.{Holds}
use db.Storage.SortedArray.Iter
use db.Storage.SortedArray.Iter.{length_eq}
use db.Storage.Sstable.Disk.{create}
use db.Storage.Sstable.Disk.Read.{Sized}
use db.Storage.Sstable.Disk.Write.{data_size}
use db.Storage.Sstable.Disk.Open.{open_file-create}
use db.Storage.Merge.Reference.{first_hit, or_else}
use db.Storage.Log.{TruncateIo, all_succeed, truncate}
use db.Storage.Meta.{Json, ReadsBack, succeeds, KvMetaStore}
use db.Storage.Meta
use db.Storage.Meta.Store.{IsLoaded}
use db.Storage.Kv.{Kv}
use db.Storage.Kv
use db.Storage.Kv.Lookup.{answer, get-first_hit}
use db.Storage.Levels.{mem_iter, level_cursor}
use db.Storage.Levels.Emit.{Emits-mem_iter}
use db.Storage.Engine.{Engine, content_of, next_version, install, reset, compact_log}
use db.Storage.Engine.Stored.{IsStored, installed, installed-IsStored}

pub empty-Holds : Holds SortedArray.empty []
empty-Holds = record { keys_eq = refl; vals_eq = refl; deleted_eq = refl; sorted = tt }

module _ (json : Json) (name_of : ℕ → Bytes) where
  -- The engine with an empty MemTable and log.
  abbrev pub cleared : Engine → Engine
  cleared e = record e {
    kv = record e.kv { log = record { content = []; offset = 0 }; mem = SortedArray.empty };
  }

  cleared-IsStored :
      (e : Engine) (rs : List Rec) (runs : List (List Rec))
      → IsStored json name_of e rs runs
      → IsStored json name_of (cleared e) [] runs
  cleared-IsStored e rs runs h = record {
    valid = record { mem_holds = empty-Holds; main_eq = h.valid.main_eq; sorted = h.valid.sorted };
    opens = h.opens;
    named = h.named;
    distinct = h.distinct;
    up_to = h.up_to;
  }

  reset_lem : (e : Engine) → reset all_succeed e ≡ (cleared e, true)
  unfolding reset truncate SortedArray.clear
  reset_lem e = refl

  compact_log_step :
      (e e' : Engine) (n : ℕ) (file : Bytes) (tio : TruncateIo)
      → create level_cursor
          (suc (SortedArray.size e.kv.mem))
          (SortedArray.size e.kv.mem)
          (mem_iter (Iter.iter e.kv.mem))
          (content_of e.dir (name_of (next_version json name_of e)))
        ≡ some (n, file)
      → install json name_of succeeds e file
          (name_of (next_version json name_of e) ∷ (Meta.get e.meta).sstables)
        ≡ (e', true)
      → compact_log json name_of succeeds tio e ≡ reset tio e'
  unfolding compact_log
  compact_log_step e e' n file tio made run = ground (arith, made, run)

  module _ (injective : (u v : ℕ) → u < 2 ^ 64 → v < 2 ^ 64 → name_of u ≡ name_of v → u ≡ v) where
    -- The new file is written and named by the metadata; the MemTable and the log are still there.
    pub flushed-IsStored :
        (e : Engine) (rs : List Rec) (runs : List (List Rec))
        → IsStored json name_of e rs runs
        → e.version + 1 < 2 ^ 64
        → All Sized rs
        → 8 + 8 * length rs + data_size rs < 2 ^ 63
        → (m : KvMetaStore) × (file : Bytes) × ((tio : TruncateIo)
            → compact_log json name_of succeeds tio e
              ≡ reset tio (installed json name_of e m file (rs ∷ runs)))
          × IsStored json name_of (installed json name_of e m file (rs ∷ runs)) rs (rs ∷ runs)
          × (ReadsBack json (record {
            version = e.version + 1;
            sstables = name_of (e.version + 1) ∷ (Meta.get e.meta).sstables;
          })
              → IsLoaded json e.meta
              → IsLoaded json m)
    unfolding SortedArray.size
    flushed-IsStored e rs runs h l z s =
        let mem = e.kv.mem in
        let old = content_of e.dir (name_of (next_version json name_of e)) in
        let (file, made, opened) =
          open_file-create level_cursor (suc (SortedArray.size mem)) (SortedArray.size mem)
            (mem_iter (Iter.iter mem)) old rs (Emits-mem_iter mem rs h.valid.mem_holds) z
            (omega (arith, size)) (omega (arith, size)) (omega (arith, size)) in
        let (m, got, loaded, run, stored) =
          installed-IsStored json name_of injective e rs runs h l [] (Meta.get e.meta).sstables []
            runs rs file tt h.opens tt h.named h.distinct (h.valid.mem_holds.sorted, h.valid.sorted)
            opened in
        let e1 = installed json name_of e m file (rs ∷ runs) in
        let same : e.version + 1 ≡ next_version json name_of e = omega arith in
        let run' : install json name_of succeeds e file
              (name_of (next_version json name_of e) ∷ (Meta.get e.meta).sstables)
            ≡ (e1, true) =
          subst
            (λ (v : ℕ).
              install json name_of succeeds e file (name_of v ∷ (Meta.get e.meta).sstables)
              ≡ (e1, true))
            same run in
        (m, file, (λ tio. compact_log_step e e1 (length rs) file tio made run'), stored, loaded)
      where
        size : SortedArray.size e.kv.mem ≡ length rs
        size = length_eq e.kv.mem rs h.valid.mem_holds

    -- In a sound engine whose file names are injective, with records whose key and value take less than
    -- 2 ^ 32 bytes and with file and version in range, a flush whose writes succeed returns nil. The
    -- MemTable is empty then, its records are the first level, the directory and the metadata hold
    -- all levels under the next version, and `Get` answers for every key what it did.
    pub get-compact_log :
        (e : Engine) (rs : List Rec) (runs : List (List Rec))
        → IsStored json name_of e rs runs
        → e.version + 1 < 2 ^ 64
        → All Sized rs
        → 8 + 8 * length rs + data_size rs < 2 ^ 63
        → (e' : Engine) × (compact_log json name_of succeeds all_succeed e ≡ (e', true))
          × IsStored json name_of e' [] (rs ∷ runs)
          × (e'.version ≡ e.version + 1)
          × ((k : Bytes) → Kv.get e'.kv k ≡ Kv.get e.kv k)
    get-compact_log e rs runs h l z s =
        let (m, file, run, stored, loaded) = flushed-IsStored e rs runs h l z s in
        let e1 = installed json name_of e m file (rs ∷ runs) in
        let stored' = cleared-IsStored e1 rs (rs ∷ runs) stored in
        (
          cleared e1,
          run all_succeed ∙ reset_lem e1,
          stored',
          refl,
          λ k.
              get-first_hit (cleared e1).kv [] (rs ∷ runs) k stored'.valid
              ∙ ap (λ (t : EntryState). answer (or_else t (first_hit k (rs ∷ runs)))) (find-nil k)
              ∙ sym (get-first_hit e.kv rs runs k h.valid),
        )
