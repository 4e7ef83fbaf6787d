-- ===== src/Etl/Dims/Inventory.antt =====
-- app/database/etl.py, `_build_inventory_facts`: the stock of past days, walked back from the stock of
-- today, and the rows that it inserts. The dictionary of the product keys has skus for keys, and the
-- rows are looked up by the number of the product, as Python's dictionaries allow.
use inventory_logix_dashboar.Base.{
  ℕ, ◌+◌, ◌-◌, ◌*◌, ◌≡◌, refl, String, Bool, false, not, ◌&&◌, Option, none, some, List, [], ◌∷◌,
  ◌++◌, arith, leb, ltb, ◌==◌, str_eq, if◌then◌else◌, keep_if, any_of, length,
}
use inventory_logix_dashboar.Stock.{MovementType}
use inventory_logix_dashboar.Etl.Facts.{
  Movement, Product, DimProduct, DimWarehouse, in_days, in_of, out_of,
}
use inventory_logix_dashboar.Etl.Dims.{InventoryFact, Tables, iter_dates}

-- A key of a Python dictionary
pub data PyKey : Type 0 where
  number : ℕ → PyKey
  text : String → PyKey

unfoldable pub same_py_key : PyKey → PyKey → Bool
same_py_key (number m) (number n) = m == n
same_py_key (number m) (text t) = false
same_py_key (text s) (number n) = false
same_py_key (text s) (text t) = str_eq s t

-- `d.get(k)`
unfoldable pub get_key : PyKey → List (PyKey × ℕ) → Option ℕ
unfolding same_py_key
get_key k [] = none
get_key k ((j, v) ∷ d) = if same_py_key j k then some v else get_key k d

-- `cur._etl_product_keys`
unfoldable pub product_keys : List DimProduct → List (PyKey × ℕ)
product_keys [] = []
product_keys (dp ∷ dps) = (text dp.sku, dp.product_key) ∷ product_keys dps

-- `wh_keys.get(r["warehouse"])`
unfoldable pub warehouse_key : Option String → List DimWarehouse → Option ℕ
warehouse_key none dws = none
warehouse_key (some name) [] = none
warehouse_key (some name) (dw ∷ dws) =
    if str_eq dw.warehouse_name name then some dw.warehouse_key else warehouse_key (some name) dws

-- The quantities of one type that a product moved after a day, up to the end of the window
unfoldable pub moved_after : (MovementType → ℕ → ℕ) → ℕ → ℕ → ℕ → List Movement → ℕ
moved_after measure product_id day end [] = 0
moved_after measure product_id day end (m ∷ ms) =
    (if (m.product_id == product_id) && ltb day m.day && leb m.day end
      then measure m.mtype m.quantity
      else 0)
    + moved_after measure product_id day end ms

-- `max(stock_on_hand, 0)`: the stock of today less what came in later and plus what went out.
unfoldable pub stock_on : Product → ℕ → ℕ → List Movement → ℕ
unfolding moved_after
stock_on p day end ms =
    p.current_stock + moved_after out_of p.id day end ms - moved_after in_of p.id day end ms

-- The row of a product on a day, if both keys are found
unfoldable pub inventory_row : Product → ℕ → ℕ → Tables → Option ℕ → Option ℕ → List InventoryFact
unfolding stock_on
inventory_row p day end t none key = []
inventory_row p day end t (some wh) none = []
inventory_row p day end t (some wh) (some key) =
    let stock = stock_on p day end t.movements in
    let row : InventoryFact = record {
      date_key = day;
      warehouse_key = wh;
      product_key = key;
      stock_on_hand = stock;
      reorder_point = p.reorder_point;
      inventory_value = stock * p.unit_price;
    } in
    row ∷ []

-- The rows of a product, over the days of the window
unfoldable pub rows_of_days : Product → ℕ → Tables → List ℕ → List InventoryFact
unfolding inventory_row warehouse_key get_key product_keys
rows_of_days p end t [] = []
rows_of_days p end t (day ∷ days) =
    inventory_row p day end t (warehouse_key p.warehouse t.dims.dim_warehouses)
      (get_key (number p.id) (product_keys t.dims.dim_products))
    ++ rows_of_days p end t days

-- `WHERE p.id = ANY(prod_ids)`, where `prod_ids` are the keys of the dimension
unfoldable pub inventory_rows : ℕ → ℕ → Tables → List Product → List InventoryFact
unfolding rows_of_days
inventory_rows start end t [] = []
inventory_rows start end t (p ∷ ps) =
    let rest = inventory_rows start end t ps in
    if any_of (λ (dp : DimProduct). dp.product_key == p.id) t.dims.dim_products
    then rows_of_days p end t (iter_dates start end) ++ rest
    else rest

-- `_build_inventory_facts`: the tables, and the count of the rows. With no keys of warehouses or of
-- products there are no rows either.
unfoldable pub build_inventory_facts : ℕ → ℕ → Tables → ℕ × Tables
unfolding inventory_rows
build_inventory_facts start end t =
    let kept = keep_if (λ (f : InventoryFact). not (in_days start end f.date_key)) t.inventory in
    let rows = inventory_rows start end t t.dims.products in
    (length rows, record t { inventory = kept ++ rows })

get_key-product_keys :
    (id : ℕ) (dps : List DimProduct) → get_key (number id) (product_keys dps) ≡ none
unfolding get_key product_keys same_py_key
get_key-product_keys id [] = refl
get_key-product_keys id (dp ∷ dps) = get_key-product_keys id dps

row_absent :
    (p : Product) (day end : ℕ) (t : Tables) (wh : Option ℕ)
    → inventory_row p day end t wh none ≡ []
unfolding inventory_row
row_absent p day end t none = refl
row_absent p day end t (some wh) = refl

rows_of_days_none :
    (p : Product) (end : ℕ) (t : Tables) (days : List ℕ) → rows_of_days p end t days ≡ []
unfolding rows_of_days
rows_of_days_none p end t [] = refl
rows_of_days_none p end t (day ∷ days) = rw (
  get_key-product_keys p.id t.dims.dim_products,
  row_absent p day end t (warehouse_key p.warehouse t.dims.dim_warehouses),
  rows_of_days_none p end t days,
)

inventory_rows_none :
    (start end : ℕ) (t : Tables) (ps : List Product) → inventory_rows start end t ps ≡ []
unfolding inventory_rows
inventory_rows_none start end t [] = refl
inventory_rows_none start end t (p ∷ ps) =
    ground
      (arith, rows_of_days_none p end t (iter_dates start end), inventory_rows_none start end t ps)

-- `_build_inventory_facts` inserts no row, whatever the tables hold: it empties the window of
-- `fact_inventory_daily` and reports 0, since no number of a product is among the skus.
pub build_inventory_facts_none :
    (start end : ℕ) (t : Tables)
    → ((build_inventory_facts start end t).0 ≡ 0)
      × (any_of
            (λ (f : InventoryFact). in_days start end f.date_key)
            (build_inventory_facts start end t).1.inventory
          ≡ false)
unfolding build_inventory_facts any_of keep_if
build_inventory_facts_none start end t = (
  rw (inventory_rows_none start end t t.dims.products),
  rw (inventory_rows_none start end t t.dims.products) (emptied start end t.inventory),
)
  where
    emptied :
        (start end : ℕ) (facts : List InventoryFact)
        → any_of
            (λ (f : InventoryFact). in_days start end f.date_key)
            (keep_if (λ (f : InventoryFact). not (in_days start end f.date_key)) facts ++ [])
          ≡ false
    emptied start end [] = refl
    emptied start end (f ∷ facts) = ground (arith, emptied start end facts)
