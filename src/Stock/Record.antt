-- ===== src/Stock/Record.antt =====
-- `MovementService.record` of app/services/movement_service.py.
use inventory_logix_dashboar.Base.{ℕ, zero, suc, String, Option, none, some, List, [], ◌∷◌, ◌++◌}
use inventory_logix_dashboar.Base.Int.{ℤ, pos, negsuc}
use inventory_logix_dashboar.Stock.{
  MovementType, movement_type, Product, Warehouse, Guard, Outcome, raised, committed, find_product,
  balance_after, sp_movement_record,
}

-- The `MovementError`s, in the order of the code; `database` is an exception of the database, whose
-- text the code passes on.
pub data MovementError : Type 0 where
  product_required : MovementError
  type_not_allowed : MovementError
  quantity_not_positive : MovementError
  product_not_found : MovementError
  negative_balance : MovementError
  database : Guard → MovementError

-- The detail of the audit row `movement.record`
pub record AuditDetail : Type 0 where
  pub target_id : ℕ
  pub product_id : ℕ
  pub sku : String
  pub mtype : MovementType
  pub quantity : ℕ
  pub new_stock : ℕ
  pub user_id : Option ℕ

-- The tables and the audit log.
pub record Db : Type 0 where
  pub warehouse : Warehouse
  pub audit : List AuditDetail

-- `int(quantity)`, where it is a positive integer
unfoldable pub positive : Option ℤ → Option ℕ
positive none = none
positive (some (negsuc n)) = none
positive (some (pos zero)) = none
positive (some (pos (suc n))) = some (suc n)

-- What follows the call of the database: the audit row. The notification is an effect outside.
unfoldable pub audited :
    Outcome Guard (ℕ × Warehouse)
    → Product
    → ℕ
    → MovementType
    → ℕ
    → ℕ
    → Option ℕ
    → Db
    → Outcome MovementError (ℕ × Db)
audited (raised guard) product product_id mtype quantity new_stock user_id db =
    raised (database guard)
audited (committed (movement_id, w)) product product_id mtype quantity new_stock user_id db =
    let detail : AuditDetail = record {
      target_id = movement_id;
      product_id = product_id;
      sku = product.sku;
      mtype = mtype;
      quantity = quantity;
      new_stock = new_stock;
      user_id = user_id;
    } in
    committed (movement_id, record { warehouse = w; audit = db.audit ++ detail ∷ [] })

unfoldable pub prechecked :
    Option ℕ
    → Product
    → ℕ
    → MovementType
    → String
    → ℕ
    → Option String
    → Option String
    → Option ℕ
    → Db
    → Outcome MovementError (ℕ × Db)
prechecked none product product_id mtype text quantity reference notes user_id db =
    raised negative_balance
prechecked (some new_stock) product product_id mtype text quantity reference notes user_id db =
    audited (sp_movement_record product_id text quantity reference notes user_id db.warehouse)
      product product_id mtype quantity new_stock user_id db

unfoldable pub found :
    Option Product
    → ℕ
    → MovementType
    → String
    → ℕ
    → Option String
    → Option String
    → Option ℕ
    → Db
    → Outcome MovementError (ℕ × Db)
found none product_id mtype text quantity reference notes user_id db = raised product_not_found
found (some product) product_id mtype text quantity reference notes user_id db =
    prechecked (balance_after mtype product.current_stock quantity) product product_id mtype text
      quantity reference notes user_id db

unfoldable pub sized :
    Option ℕ
    → List Product
    → ℕ
    → MovementType
    → String
    → Option String
    → Option String
    → Option ℕ
    → Db
    → Outcome MovementError (ℕ × Db)
sized none seen product_id mtype text reference notes user_id db = raised quantity_not_positive
sized (some quantity) seen product_id mtype text reference notes user_id db =
    found (find_product product_id seen) product_id mtype text quantity reference notes user_id db

unfoldable pub typed :
    Option MovementType
    → List Product
    → ℕ
    → String
    → Option ℤ
    → Option String
    → Option String
    → Option ℕ
    → Db
    → Outcome MovementError (ℕ × Db)
typed none seen product_id text quantity reference notes user_id db = raised type_not_allowed
typed (some mtype) seen product_id text quantity reference notes user_id db =
    sized (positive quantity) seen product_id mtype text reference notes user_id db

-- `record`: `seen` are the products as the early check reads them, `db` the database when the
-- procedure runs, after whatever others wrote in between. The reference and the notes are as
-- stripped. A product id of 0 is the one that is false.
unfoldable pub record_movement :
    List Product
    → ℕ
    → String
    → Option ℤ
    → Option String
    → Option String
    → Option ℕ
    → Db
    → Outcome MovementError (ℕ × Db)
unfolding typed sized found prechecked audited
record_movement seen zero text quantity reference notes user_id db = raised product_required
record_movement seen (suc n) text quantity reference notes user_id db =
    typed (movement_type text) seen (suc n) text quantity reference notes user_id db
