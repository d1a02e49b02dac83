-- ===== src/Storage/Sstable/Disk/Write.antt =====
-- storage/sstable.go: the loop of `CreateFromSorted` places each record behind the slots, and its
-- slot says where; what a later round writes leaves both.
use db.Prelude.{
  ℕ, zero, suc, ◌+◌, ◌*◌, ◌%◌, ◌^◌, ◌≤◌, ◌<◌, ◌≡◌, refl, ap, subst, ◌∙◌, ◌⊎◌, inl, inr, true, false,
  List, [], ◌∷◌, some, arith, Bytes, length,
}
use db.Bytes.Endian.{le_bytes, length-le_bytes}
use db.Bytes.File.{read_at, write_at, read_at-write_at, read_at-write_at_apart}
use db.Storage.Run.{Rec}
use db.Storage.Cursor.{Cursor, current_rec, Emits}
use db.Storage.Sstable.Disk.{encode_kv, write_all_at, create_loop}
use db.Storage.Sstable.Disk.Read.{record_size, length-encode_kv}

-- The bytes that the records take.
abbrev pub data_size : List Rec → ℕ
data_size [] = 0
data_size (r ∷ rs) = record_size r + data_size rs

pub write_all_at_lem :
    (p : ℕ) (b file : Bytes) → p < 2 ^ 63 → write_all_at p b file ≡ some (write_at p b file)
unfolding write_all_at write_at
write_all_at_lem p [] file h = refl
write_all_at_lem p (b ∷ bs) file h = let e : p % 2 ^ 64 ≡ p = omega arith in ground (arith, e)

-- The records of a file with est slots, the first at the i-th slot.
abbrev pub Placed : ℕ → ℕ → List Rec → Bytes → Type 0
Placed est i [] file = Unit
Placed est i (r ∷ rs) file =
    ((o : ℕ) × (8 + 8 * est ≤ o)
      × (o + record_size r < 2 ^ 63)
      × (read_at (8 + 8 * i) 8 file ≡ some (le_bytes 8 o))
      × (read_at o (length (encode_kv r)) file ≡ some (encode_kv r)))
    × Placed est (suc i) rs file

-- Reads before the i-th slot, or behind the slots and before `at`, are the same in both files.
abbrev Keeps : ℕ → ℕ → ℕ → Bytes → Bytes → Type 0
Keeps est i at file file' =
    (q n : ℕ) (x : Bytes)
    → (q + n ≤ 8 + 8 * i) ⊎ ((8 + 8 * est ≤ q) × (q + n ≤ at))
    → read_at q n file ≡ some x
    → read_at q n file' ≡ some x

module _ {I : Type 0} (c : Cursor I) (est : ℕ) where
  loop_end :
      (fuel : ℕ) (it : I) (i at : ℕ) (file : Bytes)
      → c.valid it ≡ false
      → create_loop c (suc fuel) it i at file ≡ some (i, file)
  unfolding create_loop
  loop_end fuel it i at file v = ground (arith, v)

  loop_step :
      (fuel : ℕ) (it it' : I) (i at : ℕ) (file file' file'' : Bytes)
      → c.valid it ≡ true
      → c.next it ≡ some it'
      → write_all_at at (encode_kv (current_rec c it)) file ≡ some file'
      → write_all_at (8 + 8 * i) (le_bytes 8 at) file' ≡ some file''
      → create_loop c (suc fuel) it i at file
        ≡ create_loop c fuel it' (i + 1) (at + length (encode_kv (current_rec c it))) file''
  unfolding create_loop
  loop_step fuel it it' i at file file' file'' v e w s = ground (arith, v, e, w, s)

  -- One round: the two writes keep what the invariant speaks of, and hold what was written.
  module _ (i at : ℕ) (r : Rec) (file : Bytes) (room : i < est) (behind : 8 + 8 * est ≤ at) where
    abbrev rec_written : Bytes
    rec_written = write_at at (encode_kv r) file

    abbrev round : Bytes
    round = write_at (8 + 8 * i) (le_bytes 8 at) rec_written

    some_bytes : 0 < length (encode_kv r)
    some_bytes = omega (arith, length-encode_kv r)

    some_slot : 0 < length (le_bytes 8 at)
    some_slot = omega (arith, length-le_bytes 8 at)

    round-Keeps : Keeps est i at file round
    round-Keeps q n x apart e =
        read_at-write_at_apart (8 + 8 * i) (le_bytes 8 at) rec_written some_slot q n x
          (from_slot apart)
          (read_at-write_at_apart at (encode_kv r) file some_bytes q n x (from_rec apart) e)
      where
        from_slot :
            (q + n ≤ 8 + 8 * i) ⊎ ((8 + 8 * est ≤ q) × (q + n ≤ at))
            → (q + n ≤ 8 + 8 * i) ⊎ (8 + 8 * i + length (le_bytes 8 at) ≤ q)
        from_slot (inl a) = inl a
        from_slot (inr a) = inr (omega (arith, length-le_bytes 8 at))

        from_rec :
            (q + n ≤ 8 + 8 * i) ⊎ ((8 + 8 * est ≤ q) × (q + n ≤ at))
            → (q + n ≤ at) ⊎ (at + length (encode_kv r) ≤ q)
        from_rec (inl a) = inl (omega arith)
        from_rec (inr a) = inl a.1

    round_slot : read_at (8 + 8 * i) 8 round ≡ some (le_bytes 8 at)
    round_slot =
        subst (λ (n : ℕ). read_at (8 + 8 * i) n round ≡ some (le_bytes 8 at)) (length-le_bytes 8 at)
          (read_at-write_at (8 + 8 * i) (le_bytes 8 at) rec_written some_slot)

    round_rec : read_at at (length (encode_kv r)) round ≡ some (encode_kv r)
    round_rec =
        read_at-write_at_apart (8 + 8 * i) (le_bytes 8 at) rec_written some_slot at
          (length (encode_kv r)) (encode_kv r) (inr (omega (arith, length-le_bytes 8 at)))
          (read_at-write_at at (encode_kv r) file some_bytes)

  pub create_loop-Placed :
      (fuel : ℕ) (it : I) (i at : ℕ) (file : Bytes) (rs : List Rec)
      → Emits c it rs
      → length rs < fuel
      → i + length rs ≤ est
      → 8 + 8 * est ≤ at
      → at + data_size rs < 2 ^ 63
      → (file' : Bytes) × (create_loop c fuel it i at file ≡ some (i + length rs, file'))
        × Keeps est i at file file'
        × Placed est i rs file'
  create_loop-Placed zero it i at file rs h f l b s = absurd (omega arith)
  create_loop-Placed (suc fuel) it i at file [] v f l b s = (
    file,
    loop_end fuel it i at file v ∙ ap (λ (n : ℕ). some (n, file)) {x = i} {y = i + 0} (omega arith),
    λ q n x apart e. e,
    tt,
  )
  create_loop-Placed (suc fuel) it i at file (r ∷ rs) (v, cur, it', e, h) f l b s =
      let n = length (encode_kv r) in
      let room : i < est = omega arith in
      let file2 = round i at r file room b in
      let (file', run, keeps, placed) =
        create_loop-Placed fuel it' (i + 1) (at + n) file2 rs h (omega arith) (omega arith)
          (omega arith) (omega (arith, length-encode_kv r)) in
      (
        file',
        step cur
            ∙ run
            ∙ ap (λ (t : ℕ). some (t, file')) {x = i + 1 + length rs} {y = i + suc (length rs)}
                (omega arith),
        λ q m x apart d.
            keeps q m x (wider q m apart) (round-Keeps i at r file room b q m x apart d),
        (
          (
            at,
            b,
            omega arith,
            keeps (8 + 8 * i) 8 (le_bytes 8 at) (inl (omega arith)) (round_slot i at r file room b),
            keeps at n (encode_kv r) (inr (b, omega arith)) (round_rec i at r file room b),
          ),
          subst (λ (t : ℕ). Placed est t rs file') {x = i + 1} {y = suc i} (omega arith) placed,
        ),
      )
    where
      wider :
          (q m : ℕ)
          → (q + m ≤ 8 + 8 * i) ⊎ ((8 + 8 * est ≤ q) × (q + m ≤ at))
          → (q + m ≤ 8 + 8 * (i + 1)) ⊎ ((8 + 8 * est ≤ q) × (q + m ≤ at + length (encode_kv r)))
      wider q m (inl a) = inl (omega arith)
      wider q m (inr a) = inr (a.0, omega arith)

      step :
          current_rec c it ≡ r
          → create_loop c (suc fuel) it i at file
            ≡ create_loop c fuel it'
                (i + 1)
                (at + length (encode_kv r))
                (write_at (8 + 8 * i) (le_bytes 8 at) (write_at at (encode_kv r) file))
      step cur =
          subst
            (λ (q : Rec).
              create_loop c (suc fuel) it i at file
              ≡ create_loop c fuel it' (i + 1) (at + length (encode_kv q))
                  (write_at (8 + 8 * i) (le_bytes 8 at) (write_at at (encode_kv q) file)))
            cur
            (loop_step fuel it it' i at file (write_at at (encode_kv (current_rec c it)) file)
              (write_at (8 + 8 * i) (le_bytes 8 at)
                (write_at at (encode_kv (current_rec c it)) file))
              v e (write_all_at_lem at (encode_kv (current_rec c it)) file (omega arith))
              (write_all_at_lem (8 + 8 * i) (le_bytes 8 at)
                (write_at at (encode_kv (current_rec c it)) file) (omega arith)))
