-- ===== src/Storage/Kv/Write.antt =====
-- What `SetEx`, `Set` and `Del` do to what a client sees, on every branch.
use db.Prelude.{
  ◌≡◌, refl, Bool, true, false, not, ◌&&◌, ◌||◌, List, [], ◌∷◌, arith, Bytes, if◌then◌else◌,
}
use db.Bytes.Order.{cmp, is_eq}
use db.Storage.Run.{Rec, state_of, put}
use db.Storage.Run.Laws.{find-put}
use db.Storage.SortedArray
use db.Storage.SortedArray.{SortedArray}
use db.Storage.SortedArray.Refines.{set_entry-Holds, del-Holds}
use db.Storage.Entry.{Entry}
use db.Storage.Log.{Log, Io, succeeds, short_write, sync_fails, write}
use db.Storage.Merge.Reference.{first_hit}
use db.Storage.Kv.{
  Kv, Got, missing, found, get, UpdateMode, is_insert, is_update, failed, done, log_and_apply,
  set_existing, set_ex, del,
}
use db.Storage.Kv.Lookup.{IsValid, get-first_hit}

abbrev pub live_rec : Bytes → Bytes → Rec
live_rec k v = record { key = k; val = v; deleted = false }

abbrev pub dead_rec : Bytes → Rec
dead_rec k = record { key = k; val = []; deleted = true }

-- Whether a key is there, as a client sees it.
abbrev pub is_found : Got → Bool
is_found (found v) = true
is_found _ = false

-- INSERT needs the key absent, UPDATE needs it present.
abbrev pub allowed : UpdateMode → Bool → Bool
allowed mode existed = not (existed && is_insert mode || not existed && is_update mode)

write_ok : (log : Log) (e : Entry) → (write succeeds log e).1 ≡ true
unfolding write
write_ok log e = refl

pub applied :
    (kv : Kv) (e : Entry) (change : SortedArray → SortedArray)
    → log_and_apply succeeds kv e change
      ≡ (record kv { log = (write succeeds kv.log e).0; mem = change kv.mem }, done true)
unfolding log_and_apply
applied kv e change = ground (arith, write_ok kv.log e)

module _ (kv : Kv) (rs : List Rec) (runs : List (List Rec)) (v : IsValid kv rs runs) where
  -- A write goes to the newest level: its key reads the new record, every other key reads as before.
  first_hit-put :
      (n : Rec) (j : Bytes)
      → first_hit j (put n rs ∷ runs)
        ≡ (if is_eq (cmp n.key j) then state_of n else first_hit j (rs ∷ runs))
  first_hit-put n j = ground (arith, find-put n rs j)

  set_ex-existing :
      (io : Io) (k val : Bytes) (mode : UpdateMode)
      → set_ex io kv k val mode ≡ set_existing io kv k val mode (is_found (get kv k))
  unfolding set_ex
  set_ex-existing io k val mode = ground (arith, get-first_hit kv rs runs k v)

  -- In a valid engine, `SetEx` whose mode does not allow the write, an insert of a key that is there or
  -- an update of one that is not, changes nothing and reports that nothing was written.
  pub set_ex-refused :
      (io : Io) (k val : Bytes) (mode : UpdateMode)
      → allowed mode (is_found (get kv k)) ≡ false
      → set_ex io kv k val mode ≡ (kv, done false)
  unfolding set_existing
  set_ex-refused io k val mode h = ground (arith, set_ex-existing io k val mode)

  pub set_ex-allowed :
      (io : Io) (k val : Bytes) (mode : UpdateMode)
      → allowed mode (is_found (get kv k)) ≡ true
      → set_ex io kv k val mode
        ≡ log_and_apply io kv
            (record { key = k; val = val; deleted = false })
            (λ mem. (SortedArray.set_entry mem k val).0)
  unfolding set_existing
  set_ex-allowed io k val mode h = ground (arith, set_ex-existing io k val mode)

  -- An allowed write reports so and keeps the engine valid: the MemTable's run has the new record.
  pub set_ex-IsValid :
      (k val : Bytes) (mode : UpdateMode)
      → allowed mode (is_found (get kv k)) ≡ true
      → ((set_ex succeeds kv k val mode).1 ≡ done true)
        × IsValid (set_ex succeeds kv k val mode).0 (put (live_rec k val) rs) runs
  set_ex-IsValid k val mode h =
      rw
        (
          set_ex-allowed succeeds k val mode h,
          applied kv (record { key = k; val = val; deleted = false })
              (λ mem. (SortedArray.set_entry mem k val).0),
        )
        (
          refl,
          record {
            mem_holds = set_entry-Holds kv.mem rs k v.mem_holds val;
            main_eq = v.main_eq;
            sorted = v.sorted;
          },
        )

  -- In a valid engine, after a `SetEx` that its mode allows and whose log write succeeds, `Get` of its
  -- key returns the value, and `Get` of any other key returns what it returned before.
  pub get-set_ex :
      (k val j : Bytes) (mode : UpdateMode)
      → allowed mode (is_found (get kv k)) ≡ true
      → get (set_ex succeeds kv k val mode).0 j ≡ (if is_eq (cmp k j) then found val else get kv j)
  get-set_ex k val j mode h =
      let n = live_rec k val in
      ground (
        arith,
        get-first_hit (set_ex succeeds kv k val mode).0 (put n rs) runs j
            (set_ex-IsValid k val mode h).1,
        first_hit-put n j,
        get-first_hit kv rs runs j v,
      )

  pub del_found :
      (io : Io) (k : Bytes)
      → is_found (get kv k) ≡ true
      → del io kv k
        ≡ log_and_apply io kv
            (record { key = k; val = []; deleted = true })
            (λ mem. SortedArray.del mem k)
  unfolding del
  del_found io k h = ground arith

  -- Deleting a key that is not there changes nothing and reports so.
  pub del_missing :
      (io : Io) (k : Bytes) → is_found (get kv k) ≡ false → del io kv k ≡ (kv, done false)
  unfolding del
  del_missing io k h = ground (arith, get-first_hit kv rs runs k v)

  pub del-IsValid :
      (k : Bytes)
      → is_found (get kv k) ≡ true
      → ((del succeeds kv k).1 ≡ done true)
        × IsValid (del succeeds kv k).0 (put (dead_rec k) rs) runs
  del-IsValid k h =
      rw
        (
          del_found succeeds k h,
          applied kv (record { key = k; val = []; deleted = true }) (λ mem. SortedArray.del mem k),
        )
        (
          refl,
          record {
            mem_holds = del-Holds kv.mem rs k v.mem_holds;
            main_eq = v.main_eq;
            sorted = v.sorted;
          },
        )

  -- In a valid engine, after a `Del` of a key that is there, whose log write succeeds, the key is gone,
  -- also where an SSTable still holds it, and every other key reads as before.
  pub get-del :
      (k j : Bytes)
      → is_found (get kv k) ≡ true
      → get (del succeeds kv k).0 j ≡ (if is_eq (cmp k j) then missing else get kv j)
  get-del k j h =
      let n = dead_rec k in
      ground (
        arith,
        get-first_hit (del succeeds kv k).0 (put n rs) runs j (del-IsValid k h).1,
        first_hit-put n j,
        get-first_hit kv rs runs j v,
      )

-- The log write of an operation failed.
abbrev pub fails : Io → Bool
fails succeeds = false
fails _ = true

write-fails : (io : Io) (log : Log) (e : Entry) → fails io ≡ true → (write io log e).1 ≡ false
unfolding write
write-fails succeeds log e h = cc
write-fails (short_write n) log e h = refl
write-fails sync_fails log e h = refl

log_failure :
    (io : Io) (kv : Kv) (e : Entry) (change : SortedArray → SortedArray) (j : Bytes)
    → fails io ≡ true
    → ((log_and_apply io kv e change).1 ≡ failed)
      × (get (log_and_apply io kv e change).0 j ≡ get kv j)
unfolding log_and_apply get
log_failure io kv e change j h = ground (arith, write-fails io kv.log e h)

-- Where a log write would fail, short or at the sync, `SetEx` leaves what every `Get` returns, and
-- it does not report a write.
pub set_ex-failure :
    (io : Io) (kv : Kv) (k val j : Bytes) (mode : UpdateMode)
    → fails io ≡ true
    → (get (set_ex io kv k val mode).0 j ≡ get kv j) × ((set_ex io kv k val mode).1 ≡ done true → ⊥)
unfolding set_ex set_existing
set_ex-failure io kv k val j mode h = ground (
  arith,
  log_failure io kv (record { key = k; val = val; deleted = false })
      (λ mem. (SortedArray.set_entry mem k val).0) j h,
)
