-- ===== src/Storage/Engine/Compact.antt =====
-- storage/kv.go: `Compact` as a whole ends, and keeps what `Get` answers.
use db.Prelude.{
  ℕ, ◌+◌, ◌*◌, ◌^◌, ◌≤◌, ◌<◌, ◌≡◌, refl, ◌∙◌, true, false, Bool-cases, inl, inr, not, ◌&&◌, List,
  [], ◌∷◌, some, arith, Bytes, length, ltb,
}
use db.Prelude.Int.{ℤ, pos, ltb_ℤ}
use db.Storage.Run.{Rec}
use db.Storage.SortedArray
use db.Storage.Meta.{Json, Io, succeeds}
use db.Storage.Log.{all_succeed}
use db.Storage.Kv
use db.Storage.Kv.{Kv}
use db.Storage.Engine.{Engine, Growth, next_version, compact_log, compact_loop, compact}
use db.Storage.Engine.Stored.{IsStored}
use db.Storage.Engine.Flush.{get-compact_log}
use db.Storage.Engine.Loop.{Fits, loop-get}

module _ (json : Json) (name_of : ℕ → Bytes)
    (injective : (u v : ℕ) → u < 2 ^ 64 → v < 2 ^ 64 → name_of u ≡ name_of v → u ≡ v)
    (growth : Growth) (disk : ℕ → Io) (works : (v : ℕ) → disk v ≡ succeeds) where
  compact_step :
      (fuel : ℕ) (threshold : ℤ) (e e1 : Engine)
      → (ltb 0 (SortedArray.size e.kv.mem)
          && not (ltb_ℤ (pos (SortedArray.size e.kv.mem)) threshold))
        ≡ true
      → compact_log json name_of (disk (next_version json name_of e)) all_succeed e ≡ (e1, true)
      → compact json name_of fuel threshold growth disk all_succeed e
        ≡ compact_loop json name_of fuel growth disk 0 e1
  unfolding compact
  compact_step fuel threshold e e1 t run = rw (t, run) refl

  compact_skip :
      (fuel : ℕ) (threshold : ℤ) (e : Engine)
      → (ltb 0 (SortedArray.size e.kv.mem)
          && not (ltb_ℤ (pos (SortedArray.size e.kv.mem)) threshold))
        ≡ false
      → compact json name_of fuel threshold growth disk all_succeed e
        ≡ compact_loop json name_of fuel growth disk 0 e
  unfolding compact
  compact_skip fuel threshold e t = rw t refl

  -- In a sound engine whose file names are injective, with records and versions in range (one version for each
  -- level, the MemTable included) and a disk on which all writes succeed, `Compact` ends, for any
  -- threshold and any answers of the floating-point comparison, with fuel for two rounds for each
  -- level. It returns nil; the engine is sound, with at most one level more, and `Get` answers for every key what it did.
  pub get-compact :
      (fuel : ℕ) (threshold : ℤ) (e : Engine) (rs : List Rec) (runs : List (List Rec))
      → IsStored json name_of e rs runs
      → e.version + length (rs ∷ runs) + 1 < 2 ^ 64
      → Fits (rs ∷ runs)
      → 2 * length (rs ∷ runs) < fuel
      → (e' : Engine) × (rs' : List Rec) × (runs' : List (List Rec)) × (compact json name_of fuel
            threshold growth disk all_succeed e
          ≡ some (e', true))
        × IsStored json name_of e' rs' runs'
        × (length runs' ≤ length (rs ∷ runs))
        × ((k : Bytes) → Kv.get e'.kv k ≡ Kv.get e.kv k)
  get-compact fuel threshold e rs runs h l f m =
      elim (Bool-cases (
        ltb 0 (SortedArray.size e.kv.mem)
        && not (ltb_ℤ (pos (SortedArray.size e.kv.mem)) threshold))) [
          | inr t ↦
              let kept : Fits runs = record {
                sized = f.sized.1;
                addressed = omega (arith, f.addressed);
              } in
              let (e', runs', run, stored, fewer, same) =
                loop-get json name_of injective growth disk works fuel 0 e rs runs h (omega arith)
                  kept (omega arith) (omega arith) in
              (e', rs, runs', compact_skip fuel threshold e t ∙ run, stored, omega arith, same)
          | inl t ↦
              let (e1, run1, stored1, v1, same1) =
                get-compact_log json name_of injective e rs runs h (omega arith) f.sized.0
                  (omega (arith, f.addressed)) in
              flushed t e1 run1 stored1 v1 same1
        ]
    where
      flushed :
          (ltb 0 (SortedArray.size e.kv.mem)
              && not (ltb_ℤ (pos (SortedArray.size e.kv.mem)) threshold))
            ≡ true
          → (e1 : Engine) → compact_log json name_of succeeds all_succeed e ≡ (e1, true)
          → IsStored json name_of e1 [] (rs ∷ runs)
          → e1.version ≡ e.version + 1
          → ((k : Bytes) → Kv.get e1.kv k ≡ Kv.get e.kv k)
          → (e' : Engine) × (rs' : List Rec) × (runs' : List (List Rec)) × (compact json name_of
                fuel threshold growth disk all_succeed e
              ≡ some (e', true))
            × IsStored json name_of e' rs' runs'
            × (length runs' ≤ length (rs ∷ runs))
            × ((k : Bytes) → Kv.get e'.kv k ≡ Kv.get e.kv k)
      flushed t e1 run1 stored1 v1 same1 =
          let (e', runs', run, stored, fewer, same) =
            loop-get json name_of injective growth disk works fuel 0 e1 [] (rs ∷ runs) stored1
              (omega arith) f (omega arith) (omega arith) in
          (
            e',
            [],
            runs',
            compact_step fuel threshold e e1 t (rw (works (next_version json name_of e)) run1)
                ∙ run,
            stored,
            fewer,
            λ k. same k ∙ same1 k,
          )
