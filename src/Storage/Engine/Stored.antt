-- ===== src/Storage/Engine/Stored.antt =====
-- What the directory and the metadata hold of a sound engine, and that installing a new file keeps it.
use db.Prelude.{
  ℕ, ◌+◌, ◌^◌, ◌≤◌, ◌<◌, ◌≡◌, ◌≢◌, refl, sym, ap, subst, ◌∙◌, true, false, List, [], ◌∷◌, ◌++◌, map,
  Option, some, arith, Bytes, All, All-imp, All-append,
}
use native.Mathlib.Nat.{le_refl}
use db.Bytes.Order.{eq_of_cmp, cmp_refl}
use db.Storage.Run.{Rec, IsSorted}
use db.Storage.Sstable.{file_of}
use db.Storage.Sstable.Disk.{open_file}
use db.Storage.Meta.{
  KvMetaData, Json, ReadsBack, succeeds, KvMetaStore, get, stale, write_item, set_data,
}
use db.Storage.Meta.Store.{IsLoaded, get-set_data, set_data-IsLoaded}
use db.Storage.Kv.Lookup.{IsValid}
use db.Storage.Engine.{Dir, Engine, update, open_at, open_levels, install, install_at, next_version}

-- Each name opens as the file of its run.
abbrev pub Opens : Dir → List Bytes → List (List Rec) → Type 0
Opens dir [] [] = Unit
Opens dir (name ∷ names) (rs ∷ runs) = (open_at dir name ≡ some (file_of rs)) × Opens dir names runs
Opens dir _ _ = ⊥

abbrev pub Distinct : List Bytes → Type 0
Distinct [] = Unit
Distinct (name ∷ names) = All (λ m. name ≢ m) names × Distinct names

pub open_levels-Opens :
    (dir : Dir) (names : List Bytes) (runs : List (List Rec))
    → Opens dir names runs
    → open_levels dir names ≡ (map file_of runs, true)
unfolding open_levels
open_levels-Opens dir [] [] h = refl
open_levels-Opens dir [] (rs ∷ runs) h = absurd h
open_levels-Opens dir (name ∷ names) [] h = absurd h
open_levels-Opens dir (name ∷ names) (rs ∷ runs) (e, h) =
    ground (arith, e, open_levels-Opens dir names runs h)

update_self : (dir : Dir) (name : Bytes) (c : Option Bytes) → update name c dir name ≡ c
update_self dir name c = ground (arith, cmp_refl name)

update-ne : (dir : Dir) (name m : Bytes) (c : Option Bytes) → m ≢ name → update name c dir m ≡ dir m
update-ne dir name m c h = ground (arith, eq_of_cmp m name)

-- A change under another name.
pub update-Opens :
    (dir : Dir) (name : Bytes) (c : Option Bytes) (names : List Bytes) (runs : List (List Rec))
    → All (λ m. m ≢ name) names
    → Opens dir names runs
    → Opens (update name c dir) names runs
update-Opens dir name c [] [] f h = tt
update-Opens dir name c [] (rs ∷ runs) f h = absurd h
update-Opens dir name c (m ∷ names) [] f h = absurd h
update-Opens dir name c (m ∷ names) (rs ∷ runs) (f, fs) (e, h) =
    let same = update-ne dir name m c f in
    (rw (open_at, same) e, update-Opens dir name c names runs fs h)

pub Opens-append :
    (dir : Dir) (ns ms : List Bytes) (rs qs : List (List Rec))
    → Opens dir ns rs
    → Opens dir ms qs
    → Opens dir (ns ++ ms) (rs ++ qs)
Opens-append dir [] ms [] qs h k = k
Opens-append dir [] ms (r ∷ rs) qs h k = absurd h
Opens-append dir (n ∷ ns) ms [] qs h k = absurd h
Opens-append dir (n ∷ ns) ms (r ∷ rs) qs (e, h) k = (e, Opens-append dir ns ms rs qs h k)

Distinct-insert :
    (name : Bytes) (ns ms : List Bytes)
    → All (λ m. m ≢ name) ns
    → All (λ m. m ≢ name) ms
    → Distinct (ns ++ ms)
    → Distinct (ns ++ name ∷ ms)
Distinct-insert name [] ms f g d = (All-imp (λ m ne e. ne (sym e)) ms g, d)
Distinct-insert name (n ∷ ns) ms (f, fs) g (d, ds) =
    (All-middle ns d, Distinct-insert name ns ms fs g ds)
  where
    All-middle :
        (ns : List Bytes) → All (λ m. n ≢ m) (ns ++ ms) → All (λ m. n ≢ m) (ns ++ name ∷ ms)
    All-middle [] a = (f, a)
    All-middle (k ∷ ns) (a, b) = (a, All-middle ns b)

stale_lem :
    (json : Json) (m : KvMetaStore) (d : KvMetaData)
    → (get m).version < d.version
    → stale json m d ≡ false
unfolding get
stale_lem json m d h = ground arith

set_data-ok :
    (json : Json) (m : KvMetaStore) (d : KvMetaData)
    → stale json m d ≡ false
    → (set_data json succeeds m d).1 ≡ true
unfolding set_data write_item
set_data-ok json m d h = ground arith

module _ (json : Json) (name_of : ℕ → Bytes) where
  abbrev pub InUse : ℕ → Bytes → Type 0
  InUse v name = (u : ℕ) × (u ≤ v) × (name ≡ name_of u)

  abbrev pub Named : ℕ → List Bytes → Type 0
  Named v names = All (InUse v) names

  -- The engine holds these runs, the metadata names the files of the SSTables' runs and no file
  -- twice, and every name and the metadata are of a version up to the engine's.
  pub record IsStored (e : Engine) (rs : List Rec) (runs : List (List Rec)) : Type 0 where
    pub valid : IsValid e.kv rs runs
    pub opens : Opens e.dir (get e.meta).sstables runs
    pub named : Named e.version (get e.meta).sstables
    pub distinct : Distinct (get e.meta).sstables
    pub up_to : (get e.meta).version ≤ e.version

  abbrev pub installed : Engine → KvMetaStore → Bytes → List (List Rec) → Engine
  installed e m file runs = record {
    kv = record e.kv { main = map file_of runs };
    meta = m;
    version = e.version + 1;
    dir = update (name_of (e.version + 1)) (some file) e.dir;
  }

  install-eq :
      (e : Engine) (file : Bytes) (names : List Bytes) (runs : List (List Rec))
      → e.version + 1 < 2 ^ 64
      → (get e.meta).version ≤ e.version
      → Opens (update (name_of (e.version + 1)) (some file) e.dir) names runs
      → (m : KvMetaStore) × (get m ≡ record { version = e.version + 1; sstables = names })
        × (ReadsBack json (record { version = e.version + 1; sstables = names })
            → IsLoaded json e.meta
            → IsLoaded json m)
        × (install json name_of succeeds e file names ≡ (installed e m file runs, true))
  unfolding install_at
  install-eq e file names runs l u h =
      let d : KvMetaData = record { version = e.version + 1; sstables = names } in
      let new = stale_lem json e.meta d (omega arith) in
      let v : next_version json name_of e ≡ e.version + 1 = omega arith in
      let got = get-set_data json e.meta d new in
      let dir = update (name_of (e.version + 1)) (some file) e.dir in
      let ok = set_data-ok json e.meta d new in
      let opened : open_levels dir (get (set_data json succeeds e.meta d).0).sstables
          ≡ (map file_of runs, true) =
        ap (λ (x : KvMetaData). open_levels dir x.sstables) got
        ∙ open_levels-Opens dir names runs h in
      (
        (set_data json succeeds e.meta d).0,
        got,
        set_data-IsLoaded json e.meta d,
        rw v (rw (ok, opened) refl),
      )

  module _ (injective : (u v : ℕ) → u < 2 ^ 64 → v < 2 ^ 64 → name_of u ≡ name_of v → u ≡ v) where
    -- The next version's name is none of those in use.
    pub fresh :
        (v : ℕ) (names : List Bytes)
        → v + 1 < 2 ^ 64
        → Named v names
        → All (λ m. m ≢ name_of (v + 1)) names
    fresh v [] l h = tt
    fresh v (n ∷ names) l ((u, p, e), h) = (
      (λ same. absurd (later u p (injective u (v + 1) (omega arith) l (sym e ∙ same)))),
      fresh v names l h,
    )
      where
        later : (u : ℕ) → u ≤ v → u ≡ v + 1 → ⊥
        later u p q = omega arith

    -- A file that opens as a sorted run is installed between levels that are kept: the engine holds the
    -- kept runs with the new one between them.
    pub installed-IsStored :
        (e : Engine) (rs : List Rec) (runs : List (List Rec))
        → IsStored e rs runs
        → e.version + 1 < 2 ^ 64
        → (pre post : List Bytes) (above below : List (List Rec)) (q : List Rec) (file : Bytes)
        → Opens e.dir pre above
        → Opens e.dir post below
        → Named e.version pre
        → Named e.version post
        → Distinct (pre ++ post)
        → All IsSorted (above ++ q ∷ below)
        → open_file file ≡ some (file_of q)
        → (m : KvMetaStore) × (get m
            ≡ record { version = e.version + 1; sstables = pre ++ name_of (e.version + 1) ∷ post })
          × (ReadsBack json (record {
            version = e.version + 1;
            sstables = pre ++ name_of (e.version + 1) ∷ post;
          })
              → IsLoaded json e.meta
              → IsLoaded json m)
          × (install json name_of succeeds e file (pre ++ name_of (e.version + 1) ∷ post)
              ≡ (installed e m file (above ++ q ∷ below), true))
          × IsStored (installed e m file (above ++ q ∷ below)) rs (above ++ q ∷ below)
    installed-IsStored e rs runs h l pre post above below q file op oq np nq d s o =
        let new = name_of (e.version + 1) in
        let dir = update new (some file) e.dir in
        let fp = fresh e.version pre l np in
        let fq = fresh e.version post l nq in
        let head : open_at dir new ≡ some (file_of q) =
          rw (open_at, update_self e.dir new (some file)) o in
        let opens : Opens dir (pre ++ new ∷ post) (above ++ q ∷ below) =
          Opens-append dir pre (new ∷ post) above (q ∷ below)
            (update-Opens e.dir new (some file) pre above fp op)
            (head, update-Opens e.dir new (some file) post below fq oq) in
        let (m, got, loaded, run) =
          install-eq e file (pre ++ new ∷ post) (above ++ q ∷ below) l h.up_to opens in
        let names : (get m).sstables ≡ pre ++ new ∷ post =
          ap (λ (x : KvMetaData). x.sstables) got in
        (
          m,
          got,
          loaded,
          run,
          record {
            valid = record { mem_holds = h.valid.mem_holds; main_eq = refl; sorted = s };
            opens =
                subst (λ (ns : List Bytes). Opens dir ns (above ++ q ∷ below)) (sym names) opens;
            named = subst (Named (e.version + 1)) (sym names) (
                All-append (InUse (e.version + 1)) pre (new ∷ post) (All-imp later pre np)
                  ((e.version + 1, le_refl _, refl), All-imp later post nq));
            distinct = subst Distinct (sym names) (Distinct-insert new pre post fp fq d);
            up_to = omega (arith, ap (λ (x : KvMetaData). x.version) got);
          },
        )
      where
        later : (x : Bytes) → InUse e.version x → InUse (e.version + 1) x
        later x (u, p, e) = (u, omega arith, e)
