-- ===== src/Orders/Service.antt =====
-- `POService.receive` of app/services/po_service.py, with `PurchaseOrderRepository.receive` of
-- app/repositories/po_repo.py.
use inventory_logix_dashboar.Base.{
  ℕ, zero, suc, ◌-◌, String, Bool, not, Option, none, some, List, ltb, if◌then◌else◌,
}
use inventory_logix_dashboar.Base.Int.{ℤ, pos, negsuc}
use inventory_logix_dashboar.Stock.{Outcome, raised, committed}
use inventory_logix_dashboar.Orders.{
  PoStatus, in_transit, received, same_status, Order, OrderDb, PoGuard, find_order,
  sp_po_transition,
}

-- The `POServiceError`s, in the order of the code; `database` is an exception of the database.
pub data ReceiveError : Type 0 where
  quantity_not_positive : ReceiveError
  unknown_user : ℕ → ReceiveError
  unknown_order : ℕ → ReceiveError
  not_in_transit : PoStatus → ReceiveError
  too_many : ℕ → ℕ → ReceiveError
  database : PoGuard → ReceiveError

-- The key that the repository passes on; `fallback` is the one made from `uuid.uuid4()`.
unfoldable pub receipt_key : Option String → String → String
receipt_key none fallback = fallback
receipt_key (some key) fallback = key

unfoldable pub from_database : Outcome PoGuard OrderDb → Outcome ReceiveError OrderDb
from_database (raised guard) = raised (database guard)
from_database (committed db) = committed db

-- The checks of the order that is read, and the call of the repository.
unfoldable pub receive_checked :
    Option Order
    → (ℕ → Bool)
    → ℕ
    → ℕ
    → ℕ
    → String
    → String
    → String
    → OrderDb
    → Outcome ReceiveError OrderDb
receive_checked none user_exists po_id quantity user_id notes location key db =
    raised (unknown_order po_id)
receive_checked (some o) user_exists po_id quantity user_id notes location key db =
    let outstanding = o.quantity - o.received_quantity in
    if o.is_deleted
    then raised (unknown_order po_id)
    else if not (same_status o.status in_transit)
    then raised (not_in_transit o.status)
    else if ltb outstanding quantity
    then raised (too_many quantity outstanding)
    else from_database (
        sp_po_transition user_exists po_id received (some quantity) (some user_id) notes location
          (some key) db)

unfoldable pub receive_sized :
    Option ℕ
    → List Order
    → (ℕ → Bool)
    → ℕ
    → ℕ
    → String
    → String
    → String
    → OrderDb
    → Outcome ReceiveError OrderDb
receive_sized none seen user_exists po_id user_id notes location key db =
    raised quantity_not_positive
receive_sized (some quantity) seen user_exists po_id user_id notes location key db =
    if user_exists user_id
    then receive_checked (find_order po_id seen) user_exists po_id quantity user_id notes location
        key db
    else raised (unknown_user user_id)

unfoldable pub positive : ℤ → Option ℕ
positive (negsuc n) = none
positive (pos zero) = none
positive (pos (suc n)) = some (suc n)

-- `receive`: `seen` are the orders as its checks read them, `db` the tables when the procedure runs.
unfoldable pub receive :
    List Order
    → (ℕ → Bool)
    → ℕ
    → ℤ
    → ℕ
    → String
    → String
    → Option String
    → String
    → OrderDb
    → Outcome ReceiveError OrderDb
receive seen user_exists po_id quantity user_id notes location key fallback db =
    receive_sized (positive quantity) seen user_exists po_id user_id notes location
      (receipt_key key fallback) db
