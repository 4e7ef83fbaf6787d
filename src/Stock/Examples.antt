-- ===== src/Stock/Examples.antt =====
-- Concrete movements and lists.
use inventory_logix_dashboar.Base.{
  ℕ, ◌≤◌, String, Bool, true, false, none, some, [], ◌∷◌, arith, ◌==◌, if◌then◌else◌,
}
use inventory_logix_dashboar.Base.Int.{pos}
use inventory_logix_dashboar.Stock.{Product, find_row}
use inventory_logix_dashboar.Stock.Record.{Db, record_movement}
use inventory_logix_dashboar.Stock.Ledger.{stock_of, row_stock, moved, IsBalanced}
use inventory_logix_dashboar.Stock.Requests.{
  Request, perform_all, perform_all-IsBalanced, IsHonest, record_movement-IsHonest,
}
use inventory_logix_dashboar.Stock.Query.{Filters, many, int, list_movements}
use inventory_logix_dashboar.Stock.Accepts.{Passes, IsSafe, list_movements-bounds}

abbrev bolts : Product
bolts = record {
  id = 7;
  sku = "BOLT-7";
  name = "Bolts";
  is_deleted = false;
  current_stock = 10;
  on_order = 0;
}

abbrev db : Db
db = record {
  warehouse = record {
    products = bolts ∷ [];
    movements = [];
    users = 1 ∷ 2 ∷ 5 ∷ 7 ∷ [];
    next_id = 1;
  };
  audit = [];
}

-- What each product's stock was at first.
abbrev opening : ℕ → ℕ
opening p = if 7 == p then 10 else 0

opening-IsBalanced : IsBalanced opening db.warehouse
unfolding stock_of row_stock find_row moved
opening-IsBalanced p = ground arith

-- Two takes of 8, each checked against the stock of 10.
abbrev take_eight : Request
take_eight = record {
  seen = bolts ∷ [];
  product_id = 7;
  mtype = "OUT";
  quantity = some (pos 8);
  reference = none;
  notes = none;
  user_id = some 1;
}

perform_all-IsBalanced_example :
    IsBalanced opening (perform_all (take_eight ∷ take_eight ∷ []) db).warehouse
perform_all-IsBalanced_example =
    perform_all-IsBalanced opening (take_eight ∷ take_eight ∷ []) db opening-IsBalanced

record_movement-IsHonest_example :
    IsHonest 7 db.warehouse.users
      (record_movement db.warehouse.products 7 "OUT" (some (pos 8)) none none (some 1) db)
record_movement-IsHonest_example =
    record_movement-IsHonest 7 "OUT" (some (pos 8)) none none (some 1) db

abbrev filters : Filters
filters = record {
  types = some (many ("IN" ∷ "OUT" ∷ []));
  date_from = some "2026-01-01";
  date_to = none;
  product_id = some (int 7);
  user_id = none;
}

abbrev any_date : String → Bool
any_date d = true

list_movements-bounds_example :
    Passes
      (λ q.
        ((1 ≤ q.page) × ((1 ≤ q.per_page) × (q.per_page ≤ 100)))
        × IsSafe q.types q.sort_by q.sort_order)
      (list_movements any_date filters (pos 2) (pos 500) "quantity" "asc")
list_movements-bounds_example =
    list_movements-bounds any_date filters (pos 2) (pos 500) "quantity" "asc"
