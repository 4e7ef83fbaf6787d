-- ===== src/Etl/Facts.antt =====
-- app/database/etl.py, `_build_movement_facts`: the daily facts of the movements. Days are numbers, and
-- prices and values are in the smallest unit of money; `net_qty`, the difference of two columns, is left
-- out.
pub mod Groups
pub mod Sums
pub mod Rebuilt
use inventory_logix_dashboar.Base.{
  ℕ, ◌+◌, ◌-◌, ◌*◌, String, Bool, true, false, not, ◌&&◌, Option, none, some, List, [], ◌∷◌, ◌++◌,
  leb, ◌==◌, str_eq, if◌then◌else◌, keep_if, any_of, length,
}
use inventory_logix_dashboar.Stock.{MovementType, stock_in, stock_out, adjustment, stock_return}

-- Columns of `movements`; `is_deleted` says that `deleted_at` is set.
pub record Movement : Type 0 where
  pub id : ℕ
  pub product_id : ℕ
  pub mtype : MovementType
  pub quantity : ℕ
  pub day : ℕ
  pub is_deleted : Bool

-- Columns of `products`
pub record Product : Type 0 where
  pub id : ℕ
  pub sku : String
  pub warehouse : Option String
  pub unit_price : ℕ
  pub current_stock : ℕ
  pub reorder_point : ℕ

pub record DimProduct : Type 0 where
  pub product_key : ℕ
  pub sku : String
  pub unit_price : ℕ

pub record DimWarehouse : Type 0 where
  pub warehouse_key : ℕ
  pub warehouse_code : String
  pub warehouse_name : String

-- The primary key of `fact_movement_daily`
pub record Key : Type 0 where
  pub date_key : ℕ
  pub warehouse_key : ℕ
  pub product_key : ℕ

-- A row of `fact_movement_daily`
pub record Fact : Type 0 where
  pub key : Key
  pub in_qty : ℕ
  pub out_qty : ℕ
  pub in_value : ℕ
  pub out_value : ℕ

unfoldable pub same_key : Key → Key → Bool
same_key a b =
    (a.date_key == b.date_key)
    && (a.warehouse_key == b.warehouse_key)
    && (a.product_key == b.product_key)

-- `CASE WHEN m.type = 'IN' THEN ... ELSE 0 END`
unfoldable pub in_of : MovementType → ℕ → ℕ
in_of stock_in n = n
in_of stock_out n = 0
in_of adjustment n = 0
in_of stock_return n = 0

-- `CASE WHEN m.type = 'OUT' THEN ... ELSE 0 END`
unfoldable pub out_of : MovementType → ℕ → ℕ
out_of stock_in n = 0
out_of stock_out n = n
out_of adjustment n = 0
out_of stock_return n = 0

-- The joined row, with the terms of the four sums.
unfoldable pub line : Movement → DimProduct → DimWarehouse → Fact
line m dp dw =
    let key : Key = record {
      date_key = m.day;
      warehouse_key = dw.warehouse_key;
      product_key = dp.product_key;
    } in
    record {
      key = key;
      in_qty = in_of m.mtype m.quantity;
      out_qty = out_of m.mtype m.quantity;
      in_value = in_of m.mtype (m.quantity * dp.unit_price);
      out_value = out_of m.mtype (m.quantity * dp.unit_price);
    }

-- `JOIN dim_warehouse dw ON dw.warehouse_name = p.warehouse`
unfoldable pub join_warehouses :
    Movement → DimProduct → Option String → List DimWarehouse → List Fact
join_warehouses m dp name [] = []
join_warehouses m dp none (dw ∷ dws) = []
join_warehouses m dp (some name) (dw ∷ dws) =
    let rest = join_warehouses m dp (some name) dws in
    if str_eq dw.warehouse_name name then line m dp dw ∷ rest else rest

-- The dimension tables and the products, which the joins read.
pub record Dims : Type 0 where
  pub products : List Product
  pub dim_products : List DimProduct
  pub dim_warehouses : List DimWarehouse

-- `JOIN dim_product dp ON dp.sku = p.sku`
unfoldable pub join_products : Movement → Product → List DimProduct → List DimWarehouse → List Fact
unfolding join_warehouses
join_products m p [] dws = []
join_products m p (dp ∷ dps) dws =
    let rest = join_products m p dps dws in
    if str_eq dp.sku p.sku then join_warehouses m dp p.warehouse dws ++ rest else rest

-- `JOIN products p ON p.id = m.product_id`
unfoldable pub join_movement : Movement → List Product → Dims → List Fact
unfolding join_products
join_movement m [] dims = []
join_movement m (p ∷ ps) dims =
    let rest = join_movement m ps dims in
    if p.id == m.product_id
    then join_products m p dims.dim_products dims.dim_warehouses ++ rest
    else rest

unfoldable pub join_all : Dims → List Movement → List Fact
unfolding join_movement
join_all dims [] = []
join_all dims (m ∷ ms) = join_movement m dims.products dims ++ join_all dims ms

-- The sums of a group with one row more.
unfoldable pub merge : Fact → Fact → Fact
merge l f = record f {
  in_qty = l.in_qty + f.in_qty;
  out_qty = l.out_qty + f.out_qty;
  in_value = l.in_value + f.in_value;
  out_value = l.out_value + f.out_value;
}

-- Add a joined row to its group.
unfoldable pub add_line : Fact → List Fact → List Fact
add_line l [] = l ∷ []
add_line l (f ∷ groups) =
    let rest = add_line l groups in if same_key l.key f.key then merge l f ∷ groups else f ∷ rest

-- `GROUP BY` with the four `SUM`s
unfoldable pub group : List Fact → List Fact
unfolding add_line
group [] = []
group (l ∷ ls) = add_line l (group ls)

unfoldable pub has_key : Key → List Fact → Bool
unfolding same_key
has_key k facts = any_of (λ (f : Fact). same_key k f.key) facts

-- `INSERT ... ON CONFLICT (date_key, warehouse_key, product_key) DO NOTHING`
unfoldable pub insert_facts : List Fact → List Fact → List Fact
unfolding has_key
insert_facts [] table = table
insert_facts (f ∷ fs) table =
    insert_facts fs (if has_key f.key table then table else table ++ f ∷ [])

unfoldable pub in_days : ℕ → ℕ → ℕ → Bool
in_days start end day = leb start day && leb day end

-- The `WHERE` of the selection
unfoldable pub is_counted : ℕ → ℕ → Movement → Bool
unfolding in_days
is_counted start end m = in_days start end m.day && not m.is_deleted

-- The groups of the selection
unfoldable pub daily_facts : ℕ → ℕ → Dims → List Movement → List Fact
unfolding group join_all is_counted
daily_facts start end dims movements =
    group (join_all dims (keep_if (is_counted start end) movements))

-- `DELETE FROM fact_movement_daily WHERE date_key BETWEEN ...`
unfoldable pub delete_days : ℕ → ℕ → List Fact → List Fact
unfolding in_days
delete_days start end facts = keep_if (λ (f : Fact). not (in_days start end f.key.date_key)) facts

-- `_build_movement_facts`: the table, and `cur.rowcount`
unfoldable pub build_movement_facts : ℕ → ℕ → Dims → List Movement → List Fact → List Fact × ℕ
unfolding delete_days daily_facts insert_facts
build_movement_facts start end dims movements facts =
    let kept = delete_days start end facts in
    let rows = insert_facts (daily_facts start end dims movements) kept in
    (rows, length rows - length kept)
