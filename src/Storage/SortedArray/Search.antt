-- ===== src/Storage/SortedArray/Search.antt =====
-- The binary search of a sorted slice finds the number of keys before the target.
use db.Prelude.{
  ℕ, zero, suc, ◌+◌, ◌/◌, ◌≤◌, ◌<◌, ◌≡◌, refl, Bool, true, false, ◌&&◌, List, [], ◌∷◌, map, arith,
  Bytes, All, length, get_or, ltb, if◌then◌else◌, lt, eq, gt, inl, inr, Bool-cases,
}
use db.Bytes.Order.{cmp, ◌≺◌, is_lt, is_eq, lt_trans}
use db.Storage.Run.{Rec, IsSorted}
use db.Storage.SortedArray.{search_loop, binary_search}

-- The insertion point of a key: how many records come before it.
unfoldable pub rank : Bytes → List Rec → ℕ
rank k [] = 0
rank k (r ∷ rs) = if is_lt (cmp r.key k) then suc (rank k rs) else 0

-- Whether the record at the insertion point has that key.
unfoldable pub hit : Bytes → List Rec → Bool
hit k [] = false
hit k (r ∷ rs) = elim (cmp r.key k) [ lt ↦ hit k rs | eq ↦ true | gt ↦ false ]

-- With the fuel of the interval the loop ends at the point where `below` turns false.
pub search_loop-finds :
    (fuel : ℕ) (below : ℕ → Bool) (i j r : ℕ)
    → ((h : ℕ) → h < r → below h ≡ true)
    → ((h : ℕ) → r ≤ h → h < j → below h ≡ false)
    → i ≤ r
    → r ≤ j
    → j ≤ i + fuel
    → search_loop fuel below i j ≡ r
unfolding search_loop
search_loop-finds zero below i j r low high p q f = omega arith
search_loop-finds (suc fuel) below i j r low high p q f =
    let h = (i + j) / 2 in
    let right =
      λ (lo : h + 1 ≤ r). search_loop-finds fuel below (h + 1) j r low high lo q (omega arith) in
    let left = λ (hi : r ≤ h).
      search_loop-finds fuel below i h r low (λ x a b. high x a (omega arith)) p hi (omega arith) in
    elim (Bool-cases (below h)) [
      | inl b ↦ rw b (ground (arith, high h, right))
      | inr b ↦ rw b (ground (arith, low h, left))
    ]

module _ (k : Bytes) where
  rank-le-length : (rs : List Rec) → rank k rs ≤ length (map (λ r. r.key) rs)
  unfolding rank
  rank-le-length [] = omega arith
  rank-le-length (r ∷ rs) = ground (arith, rank-le-length rs)

  before_rank :
      (rs : List Rec) (h : ℕ)
      → h < rank k rs
      → is_lt (cmp (get_or (map (λ r. r.key) rs) h []) k) ≡ true
  unfolding rank
  before_rank [] h p = absurd (omega arith)
  before_rank (r ∷ rs) zero p = ground arith
  before_rank (r ∷ rs) (suc h) p = ground (arith, before_rank rs h)

  beyond :
      (b : Bytes) (rs : List Rec) (h : ℕ)
      → All (λ s. b ≺ s.key) rs
      → is_lt (cmp b k) ≡ false
      → h < length (map (λ r. r.key) rs)
      → is_lt (cmp (get_or (map (λ r. r.key) rs) h []) k) ≡ false
  beyond b [] h a e p = absurd (omega arith)
  beyond b (r ∷ rs) zero a e p = ground (arith, lt_trans b r.key k)
  beyond b (r ∷ rs) (suc h) a e p = beyond b rs h a.1 e (omega arith)

  from_rank :
      (rs : List Rec) (h : ℕ)
      → IsSorted rs
      → rank k rs ≤ h
      → h < length (map (λ r. r.key) rs)
      → is_lt (cmp (get_or (map (λ r. r.key) rs) h []) k) ≡ false
  unfolding rank
  from_rank [] h s q p = absurd (omega arith)
  from_rank (r ∷ rs) zero s q p = ground arith
  from_rank (r ∷ rs) (suc h) s q p = ground (arith, from_rank rs h s.1, beyond r.key rs h s.0)

  hit-rank :
      (rs : List Rec)
      → let keys = map (λ r. r.key) rs in
        (ltb (rank k rs) (length keys) && is_eq (cmp (get_or keys (rank k rs) []) k)) ≡ hit k rs
  unfolding rank hit
  hit-rank [] = refl
  hit-rank (r ∷ rs) = ground (arith, hit-rank rs)

  -- On a sorted slice: the insertion point, and whether the key stands there.
  pub binary_search_lem :
      (rs : List Rec) → IsSorted rs → binary_search (map (λ r. r.key) rs) k ≡ (rank k rs, hit k rs)
  unfolding binary_search
  binary_search_lem rs s =
      let keys = map (λ r. r.key) rs in
      let point =
        search_loop-finds (length keys) (λ h. is_lt (cmp (get_or keys h []) k)) 0 (length keys)
          (rank k rs) (before_rank rs) (λ h. from_rank rs h s) (omega arith) (rank-le-length rs)
          (omega arith) in
      rw (point, hit-rank rs)
