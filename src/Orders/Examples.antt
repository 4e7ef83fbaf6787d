-- ===== src/Orders/Examples.antt =====
-- Concrete purchase orders.
use inventory_logix_dashboar.Base.{
  ℕ, refl, Bool, true, false, none, some, List, [], ◌∷◌, arith, inl,
}
use inventory_logix_dashboar.Stock.{Product, find_row}
use inventory_logix_dashboar.Orders.{
  draft, approved, in_transit, received, cancelled, Order, OrderDb,
}
use inventory_logix_dashboar.Orders.OnOrder.{on_order_of, row_on_order, has_row, share, outstanding}
use inventory_logix_dashboar.Orders.Sound.{IsSound}
use inventory_logix_dashboar.Orders.History.{
  Call, create, transition, perform_all, perform_all-IsSound,
}

abbrev bolts : Product
bolts = record {
  id = 7;
  sku = "BOLT-7";
  name = "Bolts";
  is_deleted = false;
  current_stock = 10;
  on_order = 30;
}

abbrev order : Order
order = record {
  id = 1;
  po_number = "PO-1";
  product_id = 7;
  quantity = 40;
  received_quantity = 10;
  status = in_transit;
  is_deleted = false;
}

abbrev db : OrderDb
db = record {
  warehouse = record {
    products = bolts ∷ [];
    movements = [];
    users = 1 ∷ 2 ∷ 5 ∷ 7 ∷ [];
    next_id = 1;
  };
  orders = order ∷ [];
  receipts = [];
  has_key_constraint = true;
  next_id = 2;
}

abbrev all_users : ℕ → Bool
all_users n = true

db-IsSound : IsSound db
unfolding on_order_of row_on_order has_row find_row share outstanding
db-IsSound = record { fine = ((omega arith, (inl refl, refl)), tt); counted = λ p. ground arith }

-- A partial receipt, its replay, the rest, and a new order that is approved and cancelled.
abbrev calls : List Call
calls =
    transition 1 received (some 20) (some 3) "" "" (some "k1")
    ∷ transition 1 received (some 20) (some 3) "" "" (some "k1")
    ∷ transition 1 received (some 10) (some 3) "" "" (some "k2")
    ∷ create "PO-2" 7 5 draft
    ∷ transition 2 approved none none "" "" none
    ∷ transition 2 cancelled none none "" "" none
    ∷ []

perform_all-IsSound_example : IsSound (perform_all all_users calls db)
perform_all-IsSound_example = perform_all-IsSound all_users calls db db-IsSound
