-- ===== src/Storage/Sstable/Disk/Open.antt =====
-- storage/sstable.go: `Open` and `index` read back the file that `CreateFromSorted` wrote.
use db.Prelude.{
  ℕ, zero, suc, ◌+◌, ◌*◌, ◌^◌, ◌≤◌, ◌<◌, ◌≡◌, sym, ap, subst, fun_ext, ◌∙◌, inl, inr, Bool-cases,
  List, [], ◌∷◌, Option, none, some, arith, Bytes, All, length, ltb, get_elem?, get_elem?-some,
  get_elem?-past,
}
use db.Bytes.Endian.{le_bytes, from_le, length-le_bytes, from_le-le_bytes}
use db.Bytes.File.{read_at, write_at, read_at-write_at, read_at-write_at_apart}
use db.Storage.Run.{Rec}
use db.Storage.Cursor.{Cursor, Emits}
use db.Storage.Sstable.{file_of}
use db.Storage.Sstable.Disk.{
  encode_kv, write_all_at, create_loop, create, index, open_file, read_record,
}
use db.Storage.Sstable.Disk.Read.{Sized, pread_in, read_record_lem}
use db.Storage.Sstable.Disk.Write.{Placed, data_size, write_all_at_lem, create_loop-Placed}

-- The header is written over nothing that is placed.
header-Placed :
    (est i n : ℕ) (rs : List Rec) (file : Bytes)
    → Placed est i rs file
    → Placed est i rs (write_at 0 (le_bytes 8 n) file)
header-Placed est i n [] file h = tt
header-Placed est i n (r ∷ rs) file ((o, b, s, slot, rec), h) =
    let size = length-le_bytes 8 n in
    let some_bytes : 0 < length (le_bytes 8 n) = omega (arith, size) in
    let keep = read_at-write_at_apart 0 (le_bytes 8 n) file some_bytes in
    (
      (
        o,
        b,
        s,
        keep (8 + 8 * i) 8 (le_bytes 8 o) (inr (omega (arith, size))) slot,
        keep o (length (encode_kv r)) (encode_kv r) (inr (omega (arith, size))) rec,
      ),
      header-Placed est (suc i) n rs file h,
    )

module _ (est n : ℕ) (file : Bytes) (h : n ≤ est) where
  index_step :
      (i o : ℕ)
      → i < n
      → 8 + 8 * est ≤ o
      → o < 2 ^ 63
      → read_at (8 + 8 * i) 8 file ≡ some (le_bytes 8 o)
      → index n file i ≡ read_record n o file
  unfolding index
  index_step i o l b s e =
      let slot = pread_in (8 + 8 * i) 8 file (omega arith) ∙ e in
      let at : from_le (le_bytes 8 o) ≡ o = from_le-le_bytes 8 o (omega arith) in
      subst (λ (t : ℕ). index n file i ≡ read_record n t file) at (ground (arith, slot))

  index-Placed :
      (i j : ℕ) (rs : List Rec) (r : Rec)
      → j + i < n
      → All Sized rs
      → Placed est j rs file
      → get_elem? rs i ≡ some r
      → index n file (j + i) ≡ some r
  index-Placed i j [] r l z p e = cc
  index-Placed zero j (q ∷ rs) r l z ((o, b, s, slot, rec), p) e =
      let same : q ≡ r = cc in
      subst (λ (t : ℕ). index n file t ≡ some r) {x = j} {y = j + 0} (omega arith)
        (index_step j o (omega arith) b (omega arith) slot
          ∙ read_record_lem q z.0 o s file rec n (omega arith)
          ∙ ap some same)
  index-Placed (suc i) j (q ∷ rs) r l z ((o, b, s, slot, rec), p) e =
      subst (λ (t : ℕ). index n file t ≡ some r) {x = suc j + i} {y = j + suc i} (omega arith)
        (index-Placed i (suc j) rs r (omega arith) z.1 p e)

  index_past : (i : ℕ) → n ≤ i → index n file i ≡ none
  unfolding index
  index_past i l = ground arith

index_eq :
    (est : ℕ) (rs : List Rec) (file : Bytes)
    → length rs ≤ est
    → All Sized rs
    → Placed est 0 rs file
    → index (length rs) file ≡ get_elem? rs
index_eq est rs file h z p = fun_ext at
  where
    at : (i : ℕ) → index (length rs) file i ≡ get_elem? rs i
    at i = elim (Bool-cases (ltb i (length rs))) [
      | inl t ↦
          let l : i < length rs = ground arith in
          let (r, e) = get_elem?-some rs i l in
          subst (λ (k : ℕ). index (length rs) file k ≡ get_elem? rs i) {x = 0 + i} {y = i}
            (omega arith) (index-Placed est (length rs) file h i 0 rs r (omega arith) z p e ∙ sym e)
      | inr f ↦
          let l : length rs ≤ i = ground arith in
          index_past est (length rs) file h i l ∙ sym (get_elem?-past rs i l)
    ]

open_step :
    (n : ℕ) (file : Bytes)
    → n < 2 ^ 63
    → read_at 0 8 file ≡ some (le_bytes 8 n)
    → open_file file ≡ some (record { nkeys = n; index = index n file })
unfolding open_file
open_step n file h e =
    let word : from_le (le_bytes 8 n) ≡ n = from_le-le_bytes 8 n (omega arith) in
    ground (arith, e, word)

create_step :
    {I : Type 0} (c : Cursor I) (fuel est : ℕ) (it : I) (old : Bytes) (n : ℕ) (file file' : Bytes)
    → create_loop c fuel it 0 (8 + 8 * est) old ≡ some (n, file)
    → write_all_at 0 (le_bytes 8 n) file ≡ some file'
    → create c fuel est it old ≡ some (n, file')
unfolding create
create_step c fuel est it old n file file' e w = ground (arith, e, w)

-- CreateFromSorted over a cursor that emits records of sizes below 2 ^ 32 (key and value together), with
-- an estimate that is not less than their number, fuel for each of them and one round more, and a
-- file that an int64 can address, succeeds whatever a file of that name held. Opened again, the file
-- has those records, each at its position, and reads without an error.
pub open_file-create :
    {I : Type 0} (c : Cursor I) (fuel est : ℕ) (it : I) (old : Bytes) (rs : List Rec)
    → Emits c it rs
    → All Sized rs
    → length rs ≤ est
    → length rs < fuel
    → 8 + 8 * est + data_size rs < 2 ^ 63
    → (file : Bytes) × (create c fuel est it old ≡ some (length rs, file))
      × (open_file file ≡ some (file_of rs))
open_file-create c fuel est it old rs h z l f s =
    let (file, run, keeps, placed) =
      create_loop-Placed c est fuel it 0 (8 + 8 * est) old rs h f (omega arith) (omega arith) s in
    let n = length rs in
    let size = length-le_bytes 8 n in
    let some_bytes : 0 < length (le_bytes 8 n) = omega (arith, size) in
    let file' = write_at 0 (le_bytes 8 n) file in
    let count : read_at 0 8 file' ≡ some (le_bytes 8 n) =
      subst (λ (k : ℕ). read_at 0 k file' ≡ some (le_bytes 8 n)) size
        (read_at-write_at 0 (le_bytes 8 n) file some_bytes) in
    (
      file',
      create_step c fuel est it old n file file'
          (run ∙ ap (λ (t : ℕ). some (t, file)) {x = 0 + n} {y = n} (omega arith))
          (write_all_at_lem 0 (le_bytes 8 n) file (omega arith)),
      open_step n file' (omega arith) count
          ∙ ap (λ (g : ℕ → Option Rec). some (record { nkeys = n; index = g }))
              (index_eq est rs file' l z (header-Placed est 0 n rs file placed)),
    )
