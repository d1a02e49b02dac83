-- ===== src/Sql/Eval/Compare.antt =====
-- The comparison operators agree with the order of the keys in the store.
use db.Prelude.{◌≡◌, refl, sym, ◌∙◌, ap, [], append-nil, arith, Bytes, some, Ordering, lt, eq, gt}
use db.Bytes.Order
use db.Table.Cell.{Cell, CellType, unset, type_i64, type_str, encode_key}
use db.Table.Cell.Order.{IsCell, compare_ℤ, cell_order, encode_key_order}
use db.Table.Cell.Escape.{then_by}
use db.Sql.Eval.{ok, cmp, cmp_as}

cmp_as_same :
    (t : CellType) (a b : Cell)
    → cmp_as t t a b ≡ ok (elim t [ type_str ↦ Order.cmp a.str b.str | _ ↦ compare_ℤ a.i64 b.i64 ])
unfolding cmp_as
cmp_as_same unset a b = ground arith
cmp_as_same type_i64 a b = ground arith
cmp_as_same type_str a b = refl

-- On two cells of one type.
pub cmp_lem : (a b : Cell) → a.ty ≡ b.ty → cmp a b ≡ ok (cell_order a b)
unfolding cmp
cmp_lem a b e = ap (λ (t : CellType). cmp_as a.ty t a b) (sym e) ∙ cmp_as_same a.ty a b

-- `cmp` of the evaluator on two valid cells of one type returns no error, and is bytes.Compare on
-- their keys.
pub cmp_by_key :
    (a b : Cell) (ka kb : Bytes)
    → IsCell a
    → IsCell b
    → a.ty ≡ b.ty
    → encode_key a [] ≡ some ka
    → encode_key b [] ≡ some kb
    → cmp a b ≡ ok (Order.cmp ka kb)
unfolding Order.cmp
cmp_by_key a b ka kb h g e i j = cmp_lem a b e ∙ ap ok (sym (keys ∙ then_by-eq (cell_order a b)))
  where
    then_by-eq : (o : Ordering) → then_by o eq ≡ o
    then_by-eq lt = refl
    then_by-eq eq = refl
    then_by-eq gt = refl

    keys : Order.cmp ka kb ≡ then_by (cell_order a b) eq
    keys =
        rw (sym (append-nil ka), sym (append-nil kb))
          (encode_key_order a b [] [] [] ka kb h g e i j)
