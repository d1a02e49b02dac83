-- ===== src/Storage/Engine/Loop.antt =====
-- storage/kv.go: the loop of `Compact` over the levels.
use db.Prelude.{
  ℕ, zero, suc, ◌+◌, ◌*◌, ◌^◌, ◌≤◌, ◌<◌, ◌≡◌, refl, sym, ap, subst, ◌∙◌, Bool, true, false,
  Bool-cases, inl, inr, List, [], ◌∷◌, ◌++◌, map, Option, some, arith, Bytes, All, All-append,
  length, take, drop, length-append, length-take, length-drop, take-append-drop,
}
use db.Storage.Run.{Rec}
use db.Storage.Sstable.{SortedFile, file_of}
use db.Storage.Sstable.Disk.Read.{Sized}
use db.Storage.Merge.Reference.{total}
use db.Storage.Merge.Size.{all_data}
use db.Storage.Meta.{Json, Io, succeeds}
use db.Storage.Kv
use db.Storage.Kv.{Kv}
use db.Storage.Engine.{Engine, Growth, next_version, should_merge, compact_pair, compact_loop}
use db.Storage.Engine.Stored.{IsStored}
use db.Storage.Engine.Names.{All-left, All-right}
use db.Storage.Engine.Coalesce.{coalesced, coalesced-Sized, length-coalesced, data_size-coalesced}
use db.Storage.Engine.Answers.{is_last}
use db.Storage.Engine.Pair.{get-compact_pair}

-- The records of the runs fit one file: each of key and value below 2 ^ 32, and all of it below 2 ^ 63.
pub record Fits (runs : List (List Rec)) : Type 0 where
  pub sized : All (All Sized) runs
  pub addressed : 8 + 8 * total runs + all_data runs < 2 ^ 63

total-append : (xs ys : List (List Rec)) → total (xs ++ ys) ≡ total xs + total ys
total-append [] ys = omega arith
total-append (x ∷ xs) ys = omega (arith, total-append xs ys)

all_data-append : (xs ys : List (List Rec)) → all_data (xs ++ ys) ≡ all_data xs + all_data ys
all_data-append [] ys = omega arith
all_data-append (x ∷ xs) ys = omega (arith, all_data-append xs ys)

drop-map : (i : ℕ) (runs : List (List Rec)) → drop i (map file_of runs) ≡ map file_of (drop i runs)
drop-map zero runs = refl
drop-map (suc i) [] = refl
drop-map (suc i) (rs ∷ runs) = drop-map i runs

-- One level in place of two.
coalesced-Fits :
    (above : List (List Rec)) (upper lower : List Rec) (below : List (List Rec)) (last : Bool)
    → Fits (above ++ upper ∷ lower ∷ below)
    → Fits (above ++ coalesced last upper lower ∷ below)
coalesced-Fits above upper lower below last f =
    let q = coalesced last upper lower in
    let pair = All-right (All Sized) above (upper ∷ lower ∷ below) f.sized in
    record {
      sized =
          All-append (All Sized) above (q ∷ below)
            (All-left (All Sized) above (upper ∷ lower ∷ below) f.sized)
            (coalesced-Sized upper lower last pair.0 pair.1.0, pair.1.1);
      addressed = omega (
        arith,
        f.addressed,
        total-append above (upper ∷ lower ∷ below),
        total-append above (q ∷ below),
        all_data-append above (upper ∷ lower ∷ below),
        all_data-append above (q ∷ below),
        length-coalesced upper lower last,
        data_size-coalesced upper lower last,
      );
    }

module _ (json : Json) (name_of : ℕ → Bytes)
    (injective : (u v : ℕ) → u < 2 ^ 64 → v < 2 ^ 64 → name_of u ≡ name_of v → u ≡ v)
    (growth : Growth) (disk : ℕ → Io) (works : (v : ℕ) → disk v ≡ succeeds) where
  loop_end :
      (fuel i : ℕ) (e : Engine)
      → drop i e.kv.main ≡ []
      → compact_loop json name_of (suc fuel) growth disk i e ≡ some (e, true)
  unfolding compact_loop
  loop_end fuel i e d = ground (arith, d)

  loop_last :
      (fuel i : ℕ) (e : Engine) (f : SortedFile)
      → drop i e.kv.main ≡ f ∷ []
      → compact_loop json name_of (suc fuel) growth disk i e ≡ some (e, true)
  unfolding compact_loop
  loop_last fuel i e f d = ground (arith, d)

  module _ (fuel i : ℕ) (e : Engine) (upper lower : SortedFile) (fs : List SortedFile)
      (d : drop i e.kv.main ≡ upper ∷ lower ∷ fs) where
    loop_on :
        should_merge growth upper lower ≡ false
        → compact_loop json name_of (suc fuel) growth disk i e
          ≡ compact_loop json name_of fuel growth disk (i + 1) e
    unfolding compact_loop
    loop_on m = ground (arith, d, m)

    loop_merge :
        (e' : Engine)
        → should_merge growth upper lower ≡ true
        → compact_pair json name_of (disk (next_version json name_of e)) e i upper lower
          ≡ (e', true)
        → compact_loop json name_of (suc fuel) growth disk i e
          ≡ compact_loop json name_of fuel growth disk i e'
    unfolding compact_loop
    loop_merge e' m run = ground (arith, d, m, run)

  abbrev pub Compacted : Engine → List Rec → List (List Rec) → Option (Engine × Bool) → Type 0
  Compacted e rs runs result =
      (e' : Engine) × (runs' : List (List Rec)) × (result ≡ some (e', true))
      × IsStored json name_of e' rs runs'
      × (length runs' ≤ length runs)
      × ((k : Bytes) → Kv.get e'.kv k ≡ Kv.get e.kv k)

  -- One round, when the later rounds do what they should.
  module _ (fuel : ℕ) (rs : List Rec)
      (later : (i : ℕ) (e : Engine) (runs : List (List Rec))
        → IsStored json name_of e rs runs
        → e.version + length runs < 2 ^ 64
        → Fits runs
        → i ≤ length runs
        → 2 * length runs < fuel + i
        → Compacted e rs runs (compact_loop json name_of fuel growth disk i e)) where
    merge_round :
        (i : ℕ) (e : Engine) (above : List (List Rec)) (upper lower : List Rec)
        (below : List (List Rec))
        → length above ≡ i
        → IsStored json name_of e rs (above ++ upper ∷ lower ∷ below)
        → e.version + length (above ++ upper ∷ lower ∷ below) < 2 ^ 64
        → Fits (above ++ upper ∷ lower ∷ below)
        → 2 * length (above ++ upper ∷ lower ∷ below) < suc fuel + i
        → drop i e.kv.main ≡ file_of upper ∷ file_of lower ∷ map file_of below
        → should_merge growth (file_of upper) (file_of lower) ≡ true
        → Compacted e rs
            (above ++ upper ∷ lower ∷ below)
            (compact_loop json name_of (suc fuel) growth disk i e)
    merge_round i e above upper lower below n h l f m d t =
        let pair = All-right (All Sized) above (upper ∷ lower ∷ below) f.sized in
        let q = coalesced (is_last below) upper lower in
        let size = length-append above (upper ∷ lower ∷ below) in
        let size' = length-append above (q ∷ below) in
        let (e1, run, stored, v, same) =
          get-compact_pair json name_of injective e rs above upper lower below h (omega arith)
            pair.0 pair.1.0
            (omega (
              arith,
              f.addressed,
              total-append above (upper ∷ lower ∷ below),
              all_data-append above (upper ∷ lower ∷ below),
            )) in
        let (e2, runs', rest, stored', fewer, same') =
          later i e1 (above ++ q ∷ below) stored (omega arith)
            (coalesced-Fits above upper lower below (is_last below) f) (omega arith)
            (omega arith) in
        (
          e2,
          runs',
          loop_merge fuel i e (file_of upper) (file_of lower) (map file_of below) d e1 t
                (at_level e1 run)
              ∙ rest,
          stored',
          omega arith,
          λ k. same' k ∙ same k,
        )
      where
        at_level :
            (e1 : Engine)
            → compact_pair json name_of succeeds e (length above) (file_of upper) (file_of lower)
              ≡ (e1, true)
            → compact_pair json name_of
                (disk (next_version json name_of e))
                e
                i
                (file_of upper)
                (file_of lower)
              ≡ (e1, true)
        at_level e1 run = rw (works (next_version json name_of e), ← n) run

    one_round :
        (i : ℕ) (e : Engine) (runs ahead : List (List Rec))
        → IsStored json name_of e rs runs
        → e.version + length runs < 2 ^ 64
        → Fits runs
        → i ≤ length runs
        → 2 * length runs < suc fuel + i
        → drop i runs ≡ ahead
        → drop i e.kv.main ≡ map file_of ahead
        → Compacted e rs runs (compact_loop json name_of (suc fuel) growth disk i e)
    one_round i e runs [] h l f b m r d = (e, runs, loop_end fuel i e d, h, omega arith, λ k. refl)
    one_round i e runs (q ∷ []) h l f b m r d =
        (e, runs, loop_last fuel i e (file_of q) d, h, omega arith, λ k. refl)
    one_round i e runs (upper ∷ lower ∷ below) h l f b m r d =
        elim (Bool-cases (should_merge growth (file_of upper) (file_of lower))) [
          | inr t ↦
              let (e', runs', rest, stored, fewer, same) =
                later (i + 1) e runs h l f (omega (arith, ap length r, length-drop i runs))
                  (omega arith) in
              (
                e',
                runs',
                loop_on fuel i e (file_of upper) (file_of lower) (map file_of below) d t ∙ rest,
                stored,
                fewer,
                same,
              )
          | inl t ↦
              let split : take i runs ++ upper ∷ lower ∷ below ≡ runs =
                ap (◌++◌ (take i runs)) (sym r) ∙ take-append-drop i runs in
              subst
                (λ (x : List (List Rec)).
                  Compacted e rs x (compact_loop json name_of (suc fuel) growth disk i e))
                split
                (merge_round i e (take i runs) upper lower below (omega (arith, length-take i runs))
                  (rw split h) (rw split l) (rw split f) (rw split m) d t)
        ]

  pub loop-get :
      (fuel i : ℕ) (e : Engine) (rs : List Rec) (runs : List (List Rec))
      → IsStored json name_of e rs runs
      → e.version + length runs < 2 ^ 64
      → Fits runs
      → i ≤ length runs
      → 2 * length runs < fuel + i
      → Compacted e rs runs (compact_loop json name_of fuel growth disk i e)
  loop-get zero i e rs runs h l f b m = absurd (omega arith)
  loop-get (suc fuel) i e rs runs h l f b m =
      one_round fuel rs (λ i e runs. loop-get fuel i e rs runs) i e runs (drop i runs) h l f b m
        refl (ap (drop i) h.valid.main_eq ∙ drop-map i runs)
