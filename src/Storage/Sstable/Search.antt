-- ===== src/Storage/Sstable/Search.antt =====
-- The binary search of an SSTable finds what the search of a MemTable with the same records finds.
use db.Prelude.{
  ℕ, zero, suc, ◌+◌, ◌/◌, ◌≤◌, ◌<◌, ◌≡◌, subst, true, List, [], ◌∷◌, some, arith, Bytes, All, ltb,
  length, get_elem?, get_elem?-some, lt, eq, gt, inl, inr, Bool-cases, Ordering-cases,
}
use db.Bytes.Order.{cmp, ◌≺◌, eq_of_cmp, lt_trans}
use db.Storage.Run.{Rec, IsSorted}
use db.Storage.SortedArray.Search.{rank, hit}
use db.Storage.Sstable.{file_of, search_loop, search}

module _ (k : Bytes) where
  rank-le : (rs : List Rec) → rank k rs ≤ length rs
  unfolding rank
  rank-le [] = omega arith
  rank-le (r ∷ rs) = ground (arith, rank-le rs)

  All_at :
      (P : Rec → Type 0) (rs : List Rec) (i : ℕ) (r : Rec)
      → All P rs
      → get_elem? rs i ≡ some r
      → P r
  All_at P [] i r h e = cc
  All_at P (q ∷ rs) zero r h e = let same : q ≡ r = cc in subst P same h.0
  All_at P (q ∷ rs) (suc i) r h e = All_at P rs i r h.1 e

  hit-rank_lt : (rs : List Rec) → hit k rs ≡ true → rank k rs < length rs
  unfolding rank hit
  hit-rank_lt [] h = cc
  hit-rank_lt (r ∷ rs) h = ground (arith, hit-rank_lt rs)

  -- How the key at a position compares tells on which side of the insertion point it stands.
  at_lt :
      (rs : List Rec) (i : ℕ) (r : Rec)
      → IsSorted rs
      → get_elem? rs i ≡ some r
      → cmp r.key k ≡ lt
      → i < rank k rs
  unfolding rank
  at_lt [] i r s e c = cc
  at_lt (q ∷ rs) zero r s e c = ground arith
  at_lt (q ∷ rs) (suc i) r s e c =
      let before = All_at (λ x. q.key ≺ x.key) rs i r s.0 e in
      ground (arith, at_lt rs i r s.1 e c, lt_trans q.key r.key k before c)

  at_eq :
      (rs : List Rec) (i : ℕ) (r : Rec)
      → IsSorted rs
      → get_elem? rs i ≡ some r
      → cmp r.key k ≡ eq
      → (rank k rs ≡ i) × (hit k rs ≡ true)
  unfolding rank hit
  at_eq [] i r s e c = cc
  at_eq (q ∷ rs) zero r s e c = ground arith
  at_eq (q ∷ rs) (suc i) r s e c =
      let before = All_at (λ x. q.key ≺ x.key) rs i r s.0 e in
      let first : q.key ≺ k = rw (← eq_of_cmp r.key k c) before in
      ground (arith, at_eq rs i r s.1 e c, first)

  at_gt :
      (rs : List Rec) (i : ℕ) (r : Rec)
      → get_elem? rs i ≡ some r
      → cmp r.key k ≡ gt
      → (rank k rs ≤ i) × (hit k rs ≡ true → rank k rs < i)
  unfolding rank hit
  at_gt [] i r e c = cc
  at_gt (q ∷ rs) zero r e c = ground arith
  at_gt (q ∷ rs) (suc i) r e c = ground (arith, at_gt rs i r e c)

  module _ (rs : List Rec) (s : IsSorted rs) where
    search_loop-finds :
        (fuel lo hi : ℕ)
        → lo ≤ rank k rs
        → rank k rs ≤ hi
        → (hit k rs ≡ true → rank k rs < hi)
        → hi ≤ length rs
        → hi ≤ lo + fuel
        → search_loop fuel (get_elem? rs) k lo hi ≡ some (rank k rs, hit k rs)
    unfolding search_loop
    search_loop-finds zero lo hi a b h n f = ground (arith, Bool-cases (hit k rs))
    search_loop-finds (suc fuel) lo hi a b h n f = elim (Bool-cases (ltb lo hi)) [
      | inl t ↦
          let (r, e) = get_elem?-some rs ((lo + hi) / 2) (ground arith) in
          elim (Ordering-cases (cmp r.key k)) [
            | inl c ↦
                let p = at_lt rs ((lo + hi) / 2) r s e c in
                rw (t, e, c)
                  (search_loop-finds fuel ((lo + hi) / 2 + 1) hi (omega arith) b h n (ground arith))
            | inr (inl c) ↦
                let p = at_eq rs ((lo + hi) / 2) r s e c in rw (t, e, c) (ground (arith, p))
            | inr (inr c) ↦
                let p = at_gt rs ((lo + hi) / 2) r e c in
                rw (t, e, c)
                  (search_loop-finds fuel lo ((lo + hi) / 2) a p.0 p.1 (ground arith)
                    (ground arith))
          ]
      | inr t ↦ rw t (ground (arith, Bool-cases (hit k rs)))
    ]

    -- On a sorted file: the insertion point, and whether the key stands there.
    pub search-file_of : search (file_of rs) k ≡ some (rank k rs, hit k rs)
    unfolding search
    search-file_of =
        search_loop-finds (length rs) 0 (length rs) (omega arith) (rank-le rs) (hit-rank_lt rs)
          (omega arith) (omega arith)
