-- ===== src/Storage/Kv/Kept.antt =====
-- What a write leaves alone, whatever the file system does with the log record.
use db.Prelude.{◌≡◌, refl, ◌∙◌, true, false, List, [], arith, Bytes, inl, inr, Bool-cases, ap, sym}
use db.Bytes.Order.{cmp, is_eq}
use db.Storage.Run.{Rec, put}
use db.Storage.SortedArray
use db.Storage.SortedArray.{SortedArray}
use db.Storage.SortedArray.Refines.{Holds, set_entry-Holds, del-Holds}
use db.Storage.Entry.{Entry}
use db.Storage.Log.{Io, succeeds, write}
use db.Storage.Kv.{Kv, Done, get, UpdateMode, failed, log_and_apply, set_existing, set_ex, del}
use db.Storage.Kv.Lookup.{IsValid}
use db.Storage.Kv.Write.{
  live_rec, dead_rec, is_found, allowed, set_ex-refused, set_ex-allowed, get-set_ex, del_found,
  del_missing, get-del,
}

-- The second store is valid on the same SSTables, and reads the keys of P as the first does.
pub record Keeps (P : Bytes → Type 0) (runs : List (List Rec)) (a b : Kv) : Type 0 where
  pub run : List Rec
  pub valid : IsValid b run runs
  pub same : (j : Bytes) → P j → get b j ≡ get a j

module _ (P : Bytes → Type 0) (runs : List (List Rec)) where
  pub Keeps-refl : (a : Kv) (rs : List Rec) → IsValid a rs runs → Keeps P runs a a
  Keeps-refl a rs v = record { run = rs; valid = v; same = λ j h. refl }

  pub Keeps-trans : (a b c : Kv) → Keeps P runs a b → Keeps P runs b c → Keeps P runs a c
  Keeps-trans a b c h k = record {
    run = k.run;
    valid = k.valid;
    same = λ j p. k.same j p ∙ h.same j p;
  }

  log_and_apply-Keeps :
      (io : Io) (kv : Kv) (e : Entry) (change : SortedArray → SortedArray) (rs rs' : List Rec)
      → IsValid kv rs runs
      → Holds (change kv.mem) rs'
      → ((j : Bytes) → P j → get (log_and_apply succeeds kv e change).0 j ≡ get kv j)
      → Keeps P runs kv (log_and_apply io kv e change).0
  unfolding log_and_apply get write
  log_and_apply-Keeps io kv e change rs rs' v h k = elim (Bool-cases (write io kv.log e).1) [
    | inl w ↦ rw w (record {
      run = rs';
      valid = record { mem_holds = h; main_eq = v.main_eq; sorted = v.sorted };
      same = k;
    })
    | inr w ↦ rw w (record {
      run = rs;
      valid = record { mem_holds = v.mem_holds; main_eq = v.main_eq; sorted = v.sorted };
      same = λ j p. refl;
    })
  ]

  module _ (kv : Kv) (rs : List Rec) (v : IsValid kv rs runs) (io : Io) (k : Bytes)
      (other : (j : Bytes) → P j → is_eq (cmp k j) ≡ false) where
    -- In a valid engine `SetEx`, in every mode and whatever the log write meets, keeps the engine valid, and every other key
    -- reads as before.
    pub set_ex-Keeps :
        (val : Bytes) (mode : UpdateMode) → Keeps P runs kv (set_ex io kv k val mode).0
    set_ex-Keeps val mode =
        let e : Entry = record { key = k; val = val; deleted = false } in
        let change : SortedArray → SortedArray = λ mem. (SortedArray.set_entry mem k val).0 in
        elim (Bool-cases (allowed mode (is_found (get kv k)))) [
          | inr h ↦ rw (set_ex-refused kv rs runs v io k val mode h) (Keeps-refl kv rs v)
          | inl h ↦ rw (set_ex-allowed kv rs runs v io k val mode h) (
              log_and_apply-Keeps io kv e change rs (put (live_rec k val) rs) v
                (set_entry-Holds kv.mem rs k v.mem_holds val)
                (λ j p.
                  ap (λ (r : Kv × Done). get r.0 j)
                    (sym (set_ex-allowed kv rs runs v succeeds k val mode h))
                  ∙ get-set_ex kv rs runs v k val j mode h
                  ∙ (rw (other j p) refl)))
        ]

    pub del-Keeps : Keeps P runs kv (del io kv k).0
    del-Keeps =
        let e : Entry = record { key = k; val = []; deleted = true } in
        let change : SortedArray → SortedArray = λ mem. SortedArray.del mem k in
        elim (Bool-cases (is_found (get kv k))) [
          | inr h ↦ rw (del_missing kv rs runs v io k h) (Keeps-refl kv rs v)
          | inl h ↦ rw (del_found kv rs runs v io k h) (
              log_and_apply-Keeps io kv e change rs (put (dead_rec k) rs) v
                (del-Holds kv.mem rs k v.mem_holds)
                (λ j p.
                  ap (λ (r : Kv × Done). get r.0 j) (sym (del_found kv rs runs v succeeds k h))
                  ∙ get-del kv rs runs v k j h
                  ∙ (rw (other j p) refl)))
        ]

log_and_apply_failed :
    (io : Io) (kv : Kv) (e : Entry) (change : SortedArray → SortedArray) (j : Bytes)
    → (log_and_apply io kv e change).1 ≡ failed
    → get (log_and_apply io kv e change).0 j ≡ get kv j
unfolding log_and_apply get
log_and_apply_failed io kv e change j h = ground arith

-- Where `SetEx` returns an error, every `Get` answers as before.
pub set_ex_failed :
    (io : Io) (kv : Kv) (k val j : Bytes) (mode : UpdateMode)
    → (set_ex io kv k val mode).1 ≡ failed
    → get (set_ex io kv k val mode).0 j ≡ get kv j
unfolding set_ex set_existing
set_ex_failed io kv k val j mode h = ground (
  arith,
  log_and_apply_failed io kv (record { key = k; val = val; deleted = false })
      (λ mem. (SortedArray.set_entry mem k val).0) j,
)
