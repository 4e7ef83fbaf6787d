-- ===== src/Etl/Examples.antt =====
-- Instances of the theorems on a small warehouse.
use inventory_logix_dashboar.Base.{
  ℕ, zero, suc, ◌<◌, ◌≡◌, String, true, false, ◌||◌, none, some, List, [], ◌∷◌, arith, str_eq,
  if◌then◌else◌, any_of,
}
use inventory_logix_dashboar.Base.Dict.{OrderedDict}
use inventory_logix_dashboar.Base.Decimal.{int_unsigned}
use inventory_logix_dashboar.Stock.{MovementType, stock_in, stock_out}
use inventory_logix_dashboar.JobQueue.{PyException, Outcome, returned, raised}
use inventory_logix_dashboar.Etl.{delay, retry_operation, read_state, write_state}
use inventory_logix_dashboar.Etl.Retry.{
  all_transient, settles, run_of, retry_operation_lem, read_state-write_state,
}
use inventory_logix_dashboar.Etl.Codes.{new_warehouses}
use inventory_logix_dashboar.Etl.Codes.Distinct.{HasFreshCodes, new_warehouses-HasFreshCodes}
use inventory_logix_dashboar.Etl.Facts.{
  Movement, Product, DimProduct, DimWarehouse, Dims, Key, in_days, build_movement_facts,
}
use inventory_logix_dashboar.Etl.Facts.Groups.{out_qty, amount}
use inventory_logix_dashboar.Etl.Facts.Sums.{true_amount}
use inventory_logix_dashboar.Etl.Facts.Rebuilt.{amount-build_movement_facts}
use inventory_logix_dashboar.Etl.Dims.{Tables, has_day, build_dim_dates}
use inventory_logix_dashboar.Etl.Dims.Dates.{has_day-build_dim_dates}
use inventory_logix_dashboar.Etl.Dims.Inventory.{build_inventory_facts, build_inventory_facts_none}
use inventory_logix_dashboar.Etl.Session.{World}
use inventory_logix_dashboar.Etl.Run.{run_etl}
use inventory_logix_dashboar.Etl.Run.Safety.{run_window, EndsSafely, run_etl-EndsSafely}

abbrev lost : PyException
lost = record {
  class_name = "OperationalError";
  message = "server closed the connection";
  is_connection_error = true;
}

-- An operation that fails as often as the world says
abbrev flaky : ℕ → Outcome ℕ × ℕ
flaky zero = (returned 7, 0)
flaky (suc n) = (raised lost, n)

retry_operation_lem_example :
    (n : ℕ) × (n < 3)
    × (all_transient flaky n 2 ≡ true)
    × (settles flaky 3 n 2 ≡ true)
    × (retry_operation flaky 3 1 10 2 ≡ run_of flaky (delay 1 10) 0 n 2)
retry_operation_lem_example = retry_operation_lem flaky 3 1 10 2 (omega arith)

abbrev state_rows : OrderedDict String
state_rows = ("last_run_at", "2025-01-02") ∷ ("last_movement_id", "41") ∷ []

read_state-write_state_example :
    int_unsigned
      (read_state "last_movement_id" "0" (write_state "last_movement_id" 1205 state_rows))
    ≡ (if str_eq "last_movement_id" "last_movement_id"
        then some 1205
        else int_unsigned (read_state "last_movement_id" "0" state_rows))
read_state-write_state_example =
    read_state-write_state "last_movement_id" "last_movement_id" "0" 1205 state_rows

-- Three names whose short code is the same
abbrev names : List String
names = "WH-Pune" ∷ "WH-Punjab" ∷ "WH-Puno" ∷ []

new_warehouses-HasFreshCodes_example :
    HasFreshCodes ("WH-PUN" ∷ []) (new_warehouses [] ("WH-PUN" ∷ []) names)
new_warehouses-HasFreshCodes_example = new_warehouses-HasFreshCodes [] ("WH-PUN" ∷ []) names

has_day-build_dim_dates_example :
    (has_day 12 (build_dim_dates 10 14 (11 ∷ 30 ∷ [])).0
      ≡ (has_day 12 (11 ∷ 30 ∷ []) || in_days 10 14 12))
    × ((build_dim_dates 10 14 (build_dim_dates 10 14 (11 ∷ 30 ∷ [])).0).1 ≡ 0)
has_day-build_dim_dates_example = has_day-build_dim_dates 12 10 14 (11 ∷ 30 ∷ [])

abbrev moved : ℕ → MovementType → ℕ → ℕ → Movement
moved n mtype quantity day = record {
  id = n;
  product_id = 1;
  mtype = mtype;
  quantity = quantity;
  day = day;
  is_deleted = false;
}

abbrev movements : List Movement
movements = moved 1 stock_in 40 10 ∷ moved 2 stock_out 5 11 ∷ moved 3 stock_out 7 11 ∷ []

abbrev widget : Product
widget = record {
  id = 1;
  sku = "W-1";
  warehouse = some "WH-Pune";
  unit_price = 250;
  current_stock = 28;
  reorder_point = 10;
}

abbrev dims : Dims
dims =
    let dp : DimProduct = record { product_key = 1; sku = "W-1"; unit_price = 250 } in
    let dw : DimWarehouse = record {
      warehouse_key = 1;
      warehouse_code = "WH-PUN";
      warehouse_name = "WH-Pune";
    } in
    record { products = widget ∷ []; dim_products = dp ∷ []; dim_warehouses = dw ∷ [] }

abbrev pune_on : ℕ → Key
pune_on day = record { date_key = day; warehouse_key = 1; product_key = 1 }

amount-build_movement_facts_example :
    amount out_qty (pune_on 11) (build_movement_facts 10 12 dims movements []).0 ≡ (
      if in_days 10 12 11
      then true_amount out_qty (pune_on 11) dims movements
      else amount out_qty (pune_on 11) [])
amount-build_movement_facts_example =
    amount-build_movement_facts out_qty (pune_on 11) 10 12 dims movements []

abbrev tables : Tables
tables =
    let none_yet : Dims = record {
      products = widget ∷ [];
      dim_products = [];
      dim_warehouses = [];
    } in
    record {
      movements = movements;
      suppliers = 4 ∷ [];
      dims = none_yet;
      dim_dates = [];
      dim_suppliers = [];
      next_warehouse_key = 1;
      next_product_key = 1;
      facts = [];
      inventory = [];
      etl_state = [];
    }

build_inventory_facts_none_example :
    ((build_inventory_facts 10 12 (record tables { dims = dims })).0 ≡ 0)
    × (any_of
          (λ f. in_days 10 12 f.date_key)
          (build_inventory_facts 10 12 (record tables { dims = dims })).1.inventory
        ≡ false)
build_inventory_facts_none_example =
    build_inventory_facts_none 10 12 (record tables { dims = dims })

-- The connection is lost once in the second stage.
abbrev world : World
world = record {
  committed = tables;
  working = tables;
  faults = none ∷ none ∷ none ∷ none ∷ none ∷ none ∷ none ∷ some lost ∷ [];
  is_locked = false;
}

abbrev as_they_come : List String → List String
as_they_come texts = texts

run_etl-EndsSafely_example :
    EndsSafely out_qty
      (pune_on 11)
      tables
      (run_window false 12 tables).0
      (run_window false 12 tables).1
      (run_etl as_they_come false 12 world)
run_etl-EndsSafely_example = run_etl-EndsSafely out_qty (pune_on 11) as_they_come false 12 world
