-- ===== src/Storage/Merge.antt =====
-- storage/merge.go: one cursor over k sorted levels, level 0 first in priority. The levels are
-- cursors of any kind, behind the interface `Cursor`. A step that meets an error answers `none`.
-- The loops that move one level run on fuel.
pub mod Reference
pub mod Least
pub mod Find
pub mod Forward
pub mod Walk
pub mod Size
use db.Prelude.{
  ℕ, zero, suc, ◌+◌, ◌≡◌, Bool, true, false, not, ◌&&◌, ◌||◌, List, [], ◌∷◌, Option, none, some,
  Bytes, get_elem?, ◌==◌, if◌then◌else◌, lt, eq, gt,
}
use db.Bytes.Order.{cmp, is_lt, is_eq}
use db.Storage.Cursor.{Cursor}

-- `which` is none where the code has -1, and `frontier` where it has nil.
pub record MergedIter (I : Type 0) : Type 0 where
  pub levels : List I
  pub which : Option ℕ
  pub frontier : Option Bytes
  pub desc : Bool

abbrev pub is_gt : Prim.Native.Nat.Ordering → Bool
is_gt gt = true
is_gt _ = false

module _ {I : Type 0} (c : Cursor I) where
  -- The body of the loop of `extreme`, at level i: `best` holds the index of the best level so far
  -- with its key.
  unfoldable pub improve : Bool → ℕ → I → Option (ℕ × Bytes) → Option (ℕ × Bytes)
  improve desc i lv best = if not (c.valid lv) then best else elim best [
    | none ↦ some (i, c.key lv)
    | some (b, bk) ↦
        if (not desc && is_lt (cmp (c.key lv) bk)) || (desc && is_gt (cmp (c.key lv) bk))
        then some (i, c.key lv)
        else some (b, bk)
  ]

  unfoldable pub extreme_loop : Bool → List I → ℕ → Option (ℕ × Bytes) → Option (ℕ × Bytes)
  extreme_loop desc [] i best = best
  extreme_loop desc (lv ∷ lvs) i best = extreme_loop desc lvs (i + 1) (improve desc i lv best)

  unfoldable pub extreme : Bool → List I → Option (ℕ × Bytes)
  extreme desc levels = extreme_loop desc levels 0 none

  -- append([]byte(nil), key...): nil for an empty key.
  abbrev captured : Bytes → Option Bytes
  captured [] = none
  captured (b ∷ k) = some (b ∷ k)

  -- it.which = it.extreme(); it.captureFrontier()
  unfoldable pub settle : Bool → List I → MergedIter I
  unfolding extreme
  settle desc levels = elim (extreme desc levels) [
    | none ↦ record { levels = levels; which = none; frontier = none; desc = desc }
    | some (i, k) ↦ record { levels = levels; which = some i; frontier = captured k; desc = desc }
  ]

  -- cursor: the opened level cursors, in ascending direction.
  unfoldable pub merged : List I → MergedIter I
  merged levels = settle false levels

  abbrev pub level : MergedIter I → Option I
  level it = elim it.which [ none ↦ none | some i ↦ get_elem? it.levels i ]

  unfoldable pub valid : MergedIter I → Bool
  valid it = elim it.which [ none ↦ false | some i ↦ true ]

  -- The getters of the level that holds the emitted key; on an exhausted cursor Go panics.
  unfoldable pub key : MergedIter I → Bytes
  key it = elim (level it) [ none ↦ [] | some lv ↦ c.key lv ]

  unfoldable pub val : MergedIter I → Bytes
  val it = elim (level it) [ none ↦ [] | some lv ↦ c.val lv ]

  unfoldable pub is_deleted : MergedIter I → Bool
  is_deleted it = elim (level it) [ none ↦ false | some lv ↦ c.is_deleted lv ]

  unfoldable pub advance : Bool → I → Option I
  advance desc lv = if desc then c.prev lv else c.next lv

  -- Advance every level that still sits on the key.
  unfoldable pub move_past : Bool → Bytes → I → Option I
  move_past desc k lv = if c.valid lv && is_eq (cmp (c.key lv) k) then advance desc lv else some lv

  unfoldable pub advance_all : Bool → Bytes → List I → Option (List I)
  advance_all desc k [] = some []
  advance_all desc k (lv ∷ lvs) =
      let rest = advance_all desc k lvs in
      elim (move_past desc k lv) [
        | none ↦ none
        | some lv' ↦ elim rest [ none ↦ none | some lvs' ↦ some (lv' ∷ lvs') ]
      ]

  -- The loop of `reorient`: on while the level's key is not strictly past k.
  unfoldable pub reorient_loop : ℕ → Bool → Bytes → I → Option I
  reorient_loop zero desc k lv = none
  reorient_loop (suc fuel) desc k lv =
      let more =
        c.valid lv
        && (if desc then not (is_lt (cmp (c.key lv) k)) else not (is_gt (cmp (c.key lv) k))) in
      elim more [
        | false ↦ some lv
        | true ↦ elim (advance desc lv) [ none ↦ none | some lv' ↦ reorient_loop fuel desc k lv' ]
      ]

  -- First back into range from the opposite end, then past k.
  unfoldable pub reorient : ℕ → Bool → Bytes → I → Option I
  reorient fuel desc k lv = elim (if c.valid lv then some lv else advance desc lv) [
    | none ↦ none
    | some lv' ↦ reorient_loop fuel desc k lv'
  ]

  unfoldable pub reorient_all : ℕ → Bool → Bytes → List I → Option (List I)
  reorient_all fuel desc k [] = some []
  reorient_all fuel desc k (lv ∷ lvs) =
      let rest = reorient_all fuel desc k lvs in
      elim (reorient fuel desc k lv) [
        | none ↦ none
        | some lv' ↦ elim rest [ none ↦ none | some lvs' ↦ some (lv' ∷ lvs') ]
      ]

  abbrev same : Bool → Bool → Bool
  same true b = b
  same false b = not b

  -- step: a change of direction repositions every level; else one move past the emitted key.
  unfoldable pub step : ℕ → Bool → MergedIter I → Option (MergedIter I)
  step fuel desc it =
      if same desc it.desc
      then (if valid it
          then elim (advance_all desc (key it) it.levels) [
            | none ↦ none
            | some levels ↦ some (settle desc levels)
          ]
          else some it)
      else elim it.frontier [
        | none ↦ some (record it { which = none; desc = desc })
        | some k ↦ elim (reorient_all fuel desc k it.levels) [
          | none ↦ none
          | some levels ↦ some (settle desc levels)
        ]
      ]

  abbrev pub next : ℕ → MergedIter I → Option (MergedIter I)
  next fuel = step fuel false

  abbrev pub prev : ℕ → MergedIter I → Option (MergedIter I)
  prev fuel = step fuel true

  -- The merged iterator is a cursor in its turn.
  abbrev pub merged_cursor : ℕ → Cursor (MergedIter I)
  merged_cursor fuel = record {
    valid = valid;
    key = key;
    val = val;
    is_deleted = is_deleted;
    next = next fuel;
    prev = prev fuel;
  }
