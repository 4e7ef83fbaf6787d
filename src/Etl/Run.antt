-- ===== src/Etl/Run.antt =====
-- app/database/etl.py, `run_etl`: the choice of the run, its stages and the watermark. The consistency
-- checks, which only log, and the stored procedures of the warehouse layer, which write other tables,
-- are left out but for the failure of the latter.
pub mod Stages
pub mod Watermark
pub mod Safety
use inventory_logix_dashboar.Base.{
  ℕ, zero, suc, ◌+◌, ◌-◌, max, min, String, Bool, true, false, not, ◌&&◌, ◌||◌, Option, none, some,
  List, [], ◌∷◌, leb, ltb, ◌==◌, if◌then◌else◌, keep_if,
}
use inventory_logix_dashboar.JobQueue.{PyException, Outcome, returned, raised}
use inventory_logix_dashboar.Etl.{watermark}
use inventory_logix_dashboar.Etl.Facts.{Movement, Product, Dims, build_movement_facts}
use inventory_logix_dashboar.Etl.Dims.{
  Tables, InventoryFact, DimCounts, counts_zero, build_dim_dates, build_dims,
}
use inventory_logix_dashboar.Etl.Dims.Inventory.{build_inventory_facts}
use inventory_logix_dashboar.Etl.Session.{
  World, M, ◌>>=◌, ◌>>◌, then_do, pure, use_db, commit, rollback, with_retry, set_state, stage,
}

-- The summary; the counts of `_build_dims` are one field.
pub record Summary : Type 0 where
  pub skipped : Bool
  pub incremental : Bool
  pub dim_dates : ℕ
  pub dim_counts : DimCounts
  pub fact_movements : ℕ
  pub fact_inventory : ℕ
  pub warehouse_etl_ok : Bool

abbrev pub skipped_run : Summary
skipped_run = record {
  skipped = true;
  incremental = false;
  dim_dates = 0;
  dim_counts = counts_zero;
  fact_movements = 0;
  fact_inventory = 0;
  warehouse_etl_ok = true;
}

unfoldable pub dates_op : ℕ → ℕ → Tables → Outcome (ℕ × Tables)
unfolding build_dim_dates
dates_op start end t =
    let built = build_dim_dates start end t.dim_dates in
    returned (built.1, record t { dim_dates = built.0 })

unfoldable pub movements_op : ℕ → ℕ → Tables → Outcome (ℕ × Tables)
movements_op start end t =
    let built = build_movement_facts start end t.dims t.movements t.facts in
    returned (built.1, record t { facts = built.0 })

unfoldable pub inventory_op : ℕ → ℕ → Tables → Outcome (ℕ × Tables)
inventory_op start end t = returned (build_inventory_facts start end t)

-- The four stages: the first three hold the watermark at `low`, the last moves it to `high`.
unfoldable pub run_stages : (List String → List String) → Bool → ℕ → ℕ → ℕ → ℕ → ℕ → ℕ → M Summary
unfolding stage
run_stages order_by incremental start end inv_start inv_end low high = do
  dates ← stage (dates_op start end) low
  counts ← stage (build_dims order_by) low
  moved ← stage (movements_op start end) low
  stocked ← stage (inventory_op inv_start inv_end) high
  pure record {
    skipped = false;
    incremental = incremental;
    dim_dates = dates;
    dim_counts = counts;
    fact_movements = moved;
    fact_inventory = stocked;
    warehouse_etl_ok = true;
  }

-- `MAX(id)`, or 0 for no movement; a deleted movement counts too.
unfoldable pub max_id : List Movement → ℕ
max_id [] = 0
max_id (m ∷ ms) = max m.id (max_id ms)

-- `MIN(created_at)::date`, or the default for no movement
unfoldable pub first_day : ℕ → List Movement → ℕ
first_day default [] = default
first_day default (m ∷ []) = m.day
first_day default (m ∷ n ∷ ms) = min m.day (first_day default (n ∷ ms))

-- The later of today and `MAX(created_at)::date`
unfoldable pub last_day : ℕ → List Movement → ℕ
last_day today [] = today
last_day today (m ∷ ms) = max m.day (last_day today ms)

-- `WHERE id > last_id`
unfoldable pub since : ℕ → List Movement → List Movement
since last_id ms = keep_if (λ (m : Movement). ltb last_id m.id) ms

-- `TRUNCATE ... RESTART IDENTITY CASCADE`
unfoldable pub truncate : Tables → Outcome (Unit {0} × Tables)
truncate t =
    let dims : Dims = record {
      products = t.dims.products;
      dim_products = [];
      dim_warehouses = [];
    } in
    returned (
      tt,
      record t {
        dims = dims;
        dim_dates = [];
        dim_suppliers = [];
        next_warehouse_key = 1;
        next_product_key = 1;
        facts = [];
        inventory = [];
      },
    )

abbrev pub fetch : Tables → Outcome (Tables × Tables)
fetch t = returned (t, t)

-- The incremental run: it is skipped if no movement is new.
unfoldable pub run_incremental : (List String → List String) → ℕ → Tables → M Summary
unfolding since
run_incremental order_by today t =
    let last_id = watermark t.etl_state in
    let ms = since last_id t.movements in
    if leb (max_id t.movements) last_id
    then pure skipped_run
    else run_stages order_by true (first_day today ms) (last_day today ms) (first_day today ms)
        today last_id (max_id t.movements)

-- The full rebuild
unfoldable pub run_rebuild : (List String → List String) → ℕ → Tables → M Summary
run_rebuild order_by today t =
    use_db truncate
    >> run_stages order_by false (first_day (today - 90) t.movements) today (today - 29) today 0
        (max_id t.movements)

abbrev pub is_empty : {A : Type 0} → List A → Bool
is_empty [] = true
is_empty (a ∷ as') = false

unfoldable pub choose_run : (List String → List String) → Bool → ℕ → Tables → M Summary
unfolding run_incremental run_rebuild
choose_run order_by force today t =
    if is_empty t.facts || force
    then run_rebuild order_by today t
    else run_incremental order_by today t

-- The stored procedures, whose failure is not fatal
unfoldable pub after_procedures : Summary → Outcome Tables × World → Outcome Summary × World
after_procedures s (returned t, w) = (returned s, w)
after_procedures s (raised e, w) = (returned (record s { warehouse_etl_ok = false }), rollback w)

unfoldable pub finish : ℕ → Summary → M Summary
unfolding after_procedures
finish today s =
    if s.skipped
    then pure s
    else (use_db (set_state "last_run_at" today) >> commit >> λ (w : World).
        after_procedures s (use_db fetch w))

-- The transaction that is left open goes with the connection.
unfoldable pub closed : Outcome Summary × World → Outcome Summary × World
closed (o, w) = (o, rollback w)

unfoldable pub locked_run : (List String → List String) → Bool → ℕ → M Summary
unfolding finish choose_run
locked_run order_by force today w =
    if w.is_locked
    then (returned skipped_run, w)
    else ((use_db fetch >>= choose_run order_by force today) >>= finish today) w

-- `run_etl`, on a new connection
unfoldable pub run_etl : (List String → List String) → Bool → ℕ → M Summary
unfolding closed locked_run
run_etl order_by force today w =
    closed
      ((with_retry (use_db fetch) >> use_db fetch >> locked_run order_by force today) (rollback w))
