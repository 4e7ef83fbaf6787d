-- ===== src/Etl/Facts/Sums.antt =====
-- app/database/etl.py, `_build_movement_facts`: what the movements add up to, product by product and
-- warehouse by warehouse, and that the joined rows add up to the same.
use inventory_logix_dashboar.Base.{
  ℕ, ◌+◌, ◌*◌, Bool, ◌&&◌, ◌≡◌, refl, inl, inr, String, false, not, Option, none, some, List, [],
  ◌∷◌, arith, ◌==◌, str_eq, if◌then◌else◌, Bool-cases, keep_if,
}
use mathlib.Core.Path.{◌∙◌, ap₂}
use inventory_logix_dashboar.Stock.{MovementType, stock_in, stock_out, adjustment, stock_return}
use inventory_logix_dashboar.Etl.Facts.{
  Movement, Product, DimProduct, DimWarehouse, Dims, Key, same_key, line, join_warehouses,
  join_products, join_movement, join_all, in_of, out_of,
}
use inventory_logix_dashboar.Etl.Facts.Groups.{
  Column, in_qty, out_qty, in_value, out_value, column, amount, amount-append,
}

-- What a movement of the type and quantity adds to a column, at a price.
abbrev pub share : Column → MovementType → ℕ → ℕ → ℕ
share in_qty stock_in quantity price = quantity
share in_value stock_in quantity price = quantity * price
share out_qty stock_out quantity price = quantity
share out_value stock_out quantity price = quantity * price
share _ _ quantity price = 0

-- The sum of a number over a list.
unfoldable pub sum_of {ℓ} : {A : Type ℓ} → (A → ℕ) → List A → ℕ
sum_of f [] = 0
sum_of f (x ∷ xs) = f x + sum_of f xs

-- The movement counts at the key in this product and warehouse.
abbrev pub is_at : Key → Movement → DimProduct → Option String → DimWarehouse → Bool
is_at k m dp none dw = false
is_at k m dp (some name) dw =
    str_eq dw.warehouse_name name
    && ((m.day == k.date_key)
        && ((dw.warehouse_key == k.warehouse_key) && (dp.product_key == k.product_key)))

-- What the movements that are not deleted add up to at a key, over all days: the quantity, or the
-- quantity times the price, of those of the column's type, for each product of the movement's id, each
-- row of the dimension with its sku, and each warehouse with its name.
unfoldable pub true_amount : Column → Key → Dims → List Movement → ℕ
unfolding sum_of
true_amount c k dims movements =
    sum_of
      (λ (m : Movement).
        if m.is_deleted
        then 0
        else sum_of
            (λ (p : Product).
              if p.id == m.product_id
              then sum_of
                  (λ (dp : DimProduct).
                    if str_eq dp.sku p.sku
                    then sum_of
                        (λ (dw : DimWarehouse).
                          if is_at k m dp p.warehouse dw
                          then share c m.mtype m.quantity dp.unit_price
                          else 0)
                        dims.dim_warehouses
                    else 0)
                  dims.dim_products
              else 0)
            dims.products)
      movements

-- The row with the terms of the sums, as `line` makes it.
column-terms :
    (c : Column) (mtype : MovementType) (k : Key) (quantity price : ℕ)
    → column c (record {
      key = k;
      in_qty = in_of mtype quantity;
      out_qty = out_of mtype quantity;
      in_value = in_of mtype (quantity * price);
      out_value = out_of mtype (quantity * price);
    })
      ≡ share c mtype quantity price
unfolding in_of out_of
column-terms in_qty stock_in k quantity price = refl
column-terms in_qty stock_out k quantity price = refl
column-terms in_qty adjustment k quantity price = refl
column-terms in_qty stock_return k quantity price = refl
column-terms out_qty stock_in k quantity price = refl
column-terms out_qty stock_out k quantity price = refl
column-terms out_qty adjustment k quantity price = refl
column-terms out_qty stock_return k quantity price = refl
column-terms in_value stock_in k quantity price = refl
column-terms in_value stock_out k quantity price = refl
column-terms in_value adjustment k quantity price = refl
column-terms in_value stock_return k quantity price = refl
column-terms out_value stock_in k quantity price = refl
column-terms out_value stock_out k quantity price = refl
column-terms out_value adjustment k quantity price = refl
column-terms out_value stock_return k quantity price = refl

module _ (c : Column) (k : Key) (m : Movement) where
  column-line :
      (dp : DimProduct) (dw : DimWarehouse)
      → column c (line m dp dw) ≡ share c m.mtype m.quantity dp.unit_price
  unfolding line
  column-line dp dw = column-terms c m.mtype _ m.quantity dp.unit_price

  no_warehouse :
      (dp : DimProduct) (dws : List DimWarehouse)
      → sum_of
          (λ (dw : DimWarehouse).
            if is_at k m dp none dw then share c m.mtype m.quantity dp.unit_price else 0)
          dws
        ≡ 0
  unfolding sum_of
  no_warehouse dp [] = refl
  no_warehouse dp (dw ∷ dws) = omega (arith, no_warehouse dp dws)

  amount-join_warehouses :
      (dp : DimProduct) (name : Option String) (dws : List DimWarehouse)
      → amount c k (join_warehouses m dp name dws)
        ≡ sum_of
            (λ (dw : DimWarehouse).
              if is_at k m dp name dw then share c m.mtype m.quantity dp.unit_price else 0)
            dws
  unfolding amount join_warehouses sum_of same_key line
  amount-join_warehouses dp name [] = refl
  amount-join_warehouses dp none (dw ∷ dws) = omega (arith, no_warehouse dp dws)
  amount-join_warehouses dp (some name) (dw ∷ dws) =
      ground (arith, column-line dp dw, amount-join_warehouses dp (some name) dws)

  amount-join_products :
      (p : Product) (dps : List DimProduct) (dws : List DimWarehouse)
      → amount c k (join_products m p dps dws)
        ≡ sum_of
            (λ (dp : DimProduct).
              if str_eq dp.sku p.sku
              then sum_of
                  (λ (dw : DimWarehouse).
                    if is_at k m dp p.warehouse dw
                    then share c m.mtype m.quantity dp.unit_price
                    else 0)
                  dws
              else 0)
            dps
  unfolding amount join_products sum_of
  amount-join_products p [] dws = refl
  amount-join_products p (dp ∷ dps) dws = elim (Bool-cases (str_eq dp.sku p.sku)) [
    | inl same ↦ rw same (
        amount-append c k (join_warehouses m dp p.warehouse dws) (join_products m p dps dws)
        ∙ ap₂ (λ a b. a + b) (amount-join_warehouses dp p.warehouse dws)
            (amount-join_products p dps dws))
    | inr other ↦ rw other (omega (arith, amount-join_products p dps dws))
  ]

  amount-join_movement :
      (ps : List Product) (dims : Dims)
      → amount c k (join_movement m ps dims)
        ≡ sum_of
            (λ (p : Product).
              if p.id == m.product_id
              then sum_of
                  (λ (dp : DimProduct).
                    if str_eq dp.sku p.sku
                    then sum_of
                        (λ (dw : DimWarehouse).
                          if is_at k m dp p.warehouse dw
                          then share c m.mtype m.quantity dp.unit_price
                          else 0)
                        dims.dim_warehouses
                    else 0)
                  dims.dim_products
              else 0)
            ps
  unfolding amount join_movement sum_of
  amount-join_movement [] dims = refl
  amount-join_movement (p ∷ ps) dims = elim (Bool-cases (p.id == m.product_id)) [
    | inl same ↦ rw same (
        amount-append c k (join_products m p dims.dim_products dims.dim_warehouses)
          (join_movement m ps dims)
        ∙ ap₂ (λ a b. a + b) (amount-join_products p dims.dim_products dims.dim_warehouses)
            (amount-join_movement ps dims))
    | inr other ↦ rw other (omega (arith, amount-join_movement ps dims))
  ]

pub amount-true_amount :
    (c : Column) (k : Key) (dims : Dims) (ms : List Movement)
    → amount c k (join_all dims (keep_if (λ (m : Movement). not m.is_deleted) ms))
      ≡ true_amount c k dims ms
unfolding true_amount sum_of amount join_all keep_if line
amount-true_amount c k dims [] = refl
amount-true_amount c k dims (m ∷ ms) = elim (Bool-cases m.is_deleted) [
  | inl gone ↦ rw gone (omega (arith, amount-true_amount c k dims ms))
  | inr live ↦ rw live (
      amount-append c k (join_movement m dims.products dims)
        (join_all dims (keep_if (λ (m : Movement). not m.is_deleted) ms))
      ∙ ap₂ (λ a b. a + b) (amount-join_movement c k m dims.products dims)
          (amount-true_amount c k dims ms))
]
