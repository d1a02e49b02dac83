-- ===== src/Storage/Engine/Answers.antt =====
-- storage/kv.go: the levels' answers, with one level in place of two neighbours.
use db.Prelude.{
  ◌+◌, ◌≡◌, refl, ap, ◌∙◌, Bool, true, false, List, [], ◌∷◌, ◌++◌, map, arith, Bytes, length, ◌==◌,
  length-append, length-map,
}
use db.Storage.Run.{Rec, IsSorted, EntryState, absent, present, tombstone, find}
use db.Storage.Sstable.{SortedFile, file_of}
use db.Storage.Merge.Reference.{first_hit, or_else}
use db.Storage.Filter.Find.{find-live, seen}
use db.Storage.Kv.Lookup.{answer}
use db.Storage.Engine.Coalesce.{both, coalesced, coalesced-IsSorted, find-both}

abbrev pub is_last : List (List Rec) → Bool
is_last [] = true
is_last (rs ∷ below) = false

-- What the levels say of a key, tombstones and unknown keys being the same to a client.
answer-or_else :
    (s t u : EntryState) → answer t ≡ answer u → answer (or_else s t) ≡ answer (or_else s u)
answer-or_else absent t u h = h
answer-or_else (present v) t u h = refl
answer-or_else tombstone t u h = refl

pub answer-append :
    (k : Bytes) (above runs qs : List (List Rec))
    → answer (first_hit k runs) ≡ answer (first_hit k qs)
    → answer (first_hit k (above ++ runs)) ≡ answer (first_hit k (above ++ qs))
answer-append k [] runs qs h = h
answer-append k (rs ∷ above) runs qs h =
    answer-or_else (find k rs) (first_hit k (above ++ runs)) (first_hit k (above ++ qs))
      (answer-append k above runs qs h)

or_else_two :
    (s t u : EntryState) → or_else (or_else s (or_else t absent)) u ≡ or_else s (or_else t u)
or_else_two absent absent u = refl
or_else_two absent (present v) u = refl
or_else_two absent tombstone u = refl
or_else_two (present v) t u = refl
or_else_two tombstone t u = refl

answer-seen_last : (s : EntryState) → answer (or_else (seen s) absent) ≡ answer s
answer-seen_last absent = refl
answer-seen_last (present v) = refl
answer-seen_last tombstone = refl

pub answer-coalesced :
    (k : Bytes) (upper lower : List Rec) (below : List (List Rec))
    → IsSorted upper
    → IsSorted lower
    → answer (first_hit k (coalesced (is_last below) upper lower ∷ below))
      ≡ answer (first_hit k (upper ∷ lower ∷ below))
answer-coalesced k upper lower [] su sl =
    let sorted = coalesced-IsSorted upper lower false su sl in
    ap (λ (s : EntryState). answer (or_else s absent)) (find-live k (both upper lower) sorted)
    ∙ answer-seen_last (find k (both upper lower))
    ∙ ap answer (find-both upper lower k su sl)
answer-coalesced k upper lower (rs ∷ below) su sl =
    ap (λ (s : EntryState). answer (or_else s (first_hit k (rs ∷ below))))
      (find-both upper lower k su sl)
    ∙ ap answer (or_else_two (find k upper) (find k lower) (first_hit k (rs ∷ below)))

pub last_test :
    (above : List (List Rec)) (upper lower : List Rec) (below : List (List Rec))
    (main : List SortedFile)
    → main ≡ map file_of (above ++ upper ∷ lower ∷ below)
    → (length above + 2 == length main) ≡ is_last below
last_test above upper lower below main e =
    let size : length main ≡ length above + (2 + length below) = omega (
      arith,
      ap length e,
      length-map (above ++ upper ∷ lower ∷ below) file_of,
      length-append above (upper ∷ lower ∷ below),
    ) in
    by_below below size
  where
    by_below :
        (below : List (List Rec))
        → length main ≡ length above + (2 + length below)
        → (length above + 2 == length main) ≡ is_last below
    by_below [] s = ground arith
    by_below (rs ∷ below) s = ground arith
