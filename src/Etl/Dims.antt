-- ===== src/Etl/Dims.antt =====
-- app/database/etl.py, `_build_dim_dates`, `_build_dims` and `_build_inventory_facts`: the other tables
-- of the warehouse. Of the rows of `dim_date` and `dim_supplier` only the keys are kept: their other
-- columns are computed from the date and copied from the supplier.
pub mod Inventory
pub mod Dates
use Prim.Native.Char.{code}
use inventory_logix_dashboar.Base.{
  ℕ, zero, suc, ◌+◌, ◌-◌, ◌*◌, String, Bool, true, false, not, ◌&&◌, ◌||◌, Option, none, some, List,
  [], ◌∷◌, ◌++◌, map, leb, ltb, ◌==◌, str_eq, if◌then◌else◌, keep_if, any_of, length,
}
use inventory_logix_dashboar.Base.Dict.{OrderedDict}
use inventory_logix_dashboar.Base.Text.{strip}
use inventory_logix_dashboar.JobQueue.{PyException, Outcome, returned, raised}
use inventory_logix_dashboar.Etl.Codes.{NewWarehouse, new_warehouses}
use inventory_logix_dashboar.Etl.Facts.{
  Movement, Product, DimProduct, DimWarehouse, Dims, Fact, in_days,
}

-- A row of `fact_inventory_daily`
pub record InventoryFact : Type 0 where
  pub date_key : ℕ
  pub warehouse_key : ℕ
  pub product_key : ℕ
  pub stock_on_hand : ℕ
  pub reorder_point : ℕ
  pub inventory_value : ℕ

-- The tables that the load reads and writes; `next_...` are the sequences of the keys.
pub record Tables : Type 0 where
  pub movements : List Movement
  pub suppliers : List ℕ
  pub dims : Dims
  pub dim_dates : List ℕ
  pub dim_suppliers : List ℕ
  pub next_warehouse_key : ℕ
  pub next_product_key : ℕ
  pub facts : List Fact
  pub inventory : List InventoryFact
  pub etl_state : OrderedDict String

-- So many days from `start` on.
unfoldable pub days_from : ℕ → ℕ → List ℕ
days_from zero start = []
days_from (suc n) start = start ∷ days_from n (suc start)

-- `_iter_dates`
unfoldable pub iter_dates : ℕ → ℕ → List ℕ
unfolding days_from
iter_dates start end = days_from (suc end - start) start

-- `d in days`
unfoldable pub has_day : ℕ → List ℕ → Bool
has_day d days = any_of (λ e. e == d) days

-- `_build_dim_dates`: the table, and the count of the rows that were added
unfoldable pub build_dim_dates : ℕ → ℕ → List ℕ → List ℕ × ℕ
unfolding iter_dates has_day
build_dim_dates start end dim_dates =
    let existing = keep_if (in_days start end) dim_dates in
    let rows = keep_if (λ (d : ℕ). not (has_day d existing)) (iter_dates start end) in
    (dim_dates ++ rows, length rows)

-- `TRIM(warehouse) <> ''`
unfoldable pub is_spaces : String → Bool
is_spaces String.[] = true
is_spaces (String.◌∷◌ c s) = (code c == 32) && is_spaces s

abbrev name_of : Option String → List String
name_of none = []
name_of (some warehouse) = if is_spaces warehouse then [] else warehouse ∷ []

-- The names of the products' warehouses, each once
unfoldable pub distinct_names : List Product → List String
distinct_names [] = []
distinct_names (p ∷ ps) =
    let rest = distinct_names ps in
    name_of p.warehouse ++ keep_if (λ s. not (any_of (str_eq s) (name_of p.warehouse))) rest

-- The insertion into `dim_warehouse`, or `none` for a violated `UNIQUE`
unfoldable pub insert_warehouses :
    ℕ → List NewWarehouse → List DimWarehouse → Option (List DimWarehouse)
insert_warehouses key [] table = some table
insert_warehouses key (row ∷ rows) table =
    let taken =
      any_of
        (λ (dw : DimWarehouse).
          str_eq dw.warehouse_code row.warehouse_code
          || str_eq dw.warehouse_name row.warehouse_name)
        table in
    let added : DimWarehouse = record {
      warehouse_key = key;
      warehouse_code = row.warehouse_code;
      warehouse_name = row.warehouse_name;
    } in
    let inserted = insert_warehouses (suc key) rows (table ++ added ∷ []) in
    if taken then none else inserted

-- The products that have no row yet. A sku that stands twice among them, as that of a product that was
-- deleted and made again, makes the insertion raise.
unfoldable pub new_products : ℕ → List DimProduct → List Product → List DimProduct
new_products key table [] = []
new_products key table (p ∷ ps) =
    let added : DimProduct = record { product_key = key; sku = p.sku; unit_price = p.unit_price } in
    elim (any_of (λ (dp : DimProduct). str_eq dp.sku p.sku) table) [
      | true ↦ new_products key table ps
      | false ↦ added ∷ new_products (suc key) table ps
    ]

-- The suppliers that have no row yet
unfoldable pub new_suppliers : List ℕ → List ℕ → List ℕ
new_suppliers existing [] = []
new_suppliers existing (s ∷ ss) = elim (any_of (λ e. e == s) existing) [
  | true ↦ new_suppliers existing ss
  | false ↦ s ∷ new_suppliers (s ∷ existing) ss
]

-- The three counts of the summary
pub record DimCounts : Type 0 where
  pub dim_warehouses : ℕ
  pub dim_products : ℕ
  pub dim_suppliers : ℕ

unfoldable pub counts_zero : DimCounts
counts_zero = record { dim_warehouses = 0; dim_products = 0; dim_suppliers = 0 }

abbrev pub unique_violation : PyException
unique_violation = record {
  class_name = "UniqueViolation";
  message = "duplicate key value violates unique constraint";
  is_connection_error = false;
}

-- The new rows of `dim_warehouse`; `order_by` is the database's order of texts.
unfoldable pub warehouse_rows : (List String → List String) → Dims → List NewWarehouse
unfolding distinct_names
warehouse_rows order_by dims =
    new_warehouses (map (λ (dw : DimWarehouse). dw.warehouse_name) dims.dim_warehouses)
      (map (λ (dw : DimWarehouse). dw.warehouse_code) dims.dim_warehouses)
      (map strip (order_by (distinct_names dims.products)))

-- Whether two of the rows have the same sku, which the unique index of `dim_product` refuses.
unfoldable pub repeats_sku : List DimProduct → Bool
repeats_sku [] = false
repeats_sku (dp ∷ dps) =
    let rest = repeats_sku dps in
    any_of (λ (other : DimProduct). str_eq other.sku dp.sku) dps || rest

-- The products and the suppliers, once the warehouses are in
unfoldable pub build_others :
    List NewWarehouse → Tables → Option (List DimWarehouse) → Outcome (DimCounts × Tables)
unfolding new_products new_suppliers repeats_sku
build_others new_wh t none = raised unique_violation
build_others new_wh t (some dws) =
    let dps = new_products t.next_product_key t.dims.dim_products t.dims.products in
    let sups = new_suppliers t.dim_suppliers t.suppliers in
    let counts : DimCounts = record {
      dim_warehouses = length new_wh;
      dim_products = length dps;
      dim_suppliers = length sups;
    } in
    let dims : Dims = record {
      products = t.dims.products;
      dim_products = t.dims.dim_products ++ dps;
      dim_warehouses = dws;
    } in
    if repeats_sku dps
    then raised unique_violation
    else returned (
      counts,
      record t {
        dims = dims;
        dim_suppliers = t.dim_suppliers ++ sups;
        next_warehouse_key = t.next_warehouse_key + length new_wh;
        next_product_key = t.next_product_key + length dps;
      },
    )

-- `_build_dims`
unfoldable pub build_dims : (List String → List String) → Tables → Outcome (DimCounts × Tables)
unfolding build_others insert_warehouses warehouse_rows
build_dims order_by t =
    let rows = warehouse_rows order_by t.dims in
    build_others rows t (insert_warehouses t.next_warehouse_key rows t.dims.dim_warehouses)
