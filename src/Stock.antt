-- ===== src/Stock.antt =====
-- The stock ledger: the tables `products`, `movements` and `purchase_orders` as far as stock depends
-- on them, `sp_movement_record` of app/database/procedures.sql with the trigger on `movements` of
-- app/database/triggers.sql, and app/repositories/movement_repo.py. A number of a row is the integer
-- that the table's CHECK constraints allow, at least 0.
pub mod Record
pub mod Ledger
pub mod Requests
pub mod Query
pub mod Accepts
mod Examples
use inventory_logix_dashboar.Base.{
  ℕ, suc, ◌+◌, ◌-◌, String, Bool, true, false, not, ◌&&◌, Option, none, some, List, [], ◌∷◌, ◌++◌,
  ltb, leb, ◌==◌, str_eq, any_of, if◌then◌else◌, update_where,
}
use inventory_logix_dashboar.Base.Text.{length_chars}

pub data MovementType : Type 0 where
  stock_in stock_out adjustment stock_return : MovementType

-- The type that a text names, of `ALLOWED_TYPES`.
unfoldable pub movement_type : String → Option MovementType
movement_type s =
    if str_eq s "IN"
    then some stock_in
    else if str_eq s "OUT"
    then some stock_out
    else if str_eq s "ADJUSTMENT"
    then some adjustment
    else if str_eq s "RETURN"
    then some stock_return
    else none

abbrev pub is_out : MovementType → Bool
is_out stock_out = true
is_out _ = false

-- A row of `products`
pub record Product : Type 0 where
  pub id : ℕ
  pub sku : String
  pub name : String
  pub is_deleted : Bool
  pub current_stock : ℕ
  pub on_order : ℕ

-- A row of `movements`
pub record Movement : Type 0 where
  pub id : ℕ
  pub product_id : ℕ
  pub mtype : MovementType
  pub quantity : ℕ
  pub reference : Option String
  pub notes : Option String
  pub user_id : Option ℕ

-- The two tables; `users` are the ids that `movements.user_id` may refer to, and `next_id` is the
-- sequence of `movements`.
pub record Warehouse : Type 0 where
  pub products : List Product
  pub movements : List Movement
  pub users : List ℕ
  pub next_id : ℕ

-- What the database raises: the guards of the procedure and of the trigger, and the limits of integers,
-- of the column `reference` and of the foreign key of `user_id`.
pub data Guard : Type 0 where
  invalid_product : ℕ → Guard
  invalid_type : String → Guard
  insufficient_stock : ℕ → ℕ → Guard
  out_of_range : ℕ → Guard
  value_too_long : String → Guard
  unknown_user : ℕ → Guard

-- The result of a transaction: an exception, and the tables are as before, or a commit.
pub data Outcome {ℓ} (E A : Type ℓ) : Type ℓ where
  raised : E → Outcome E A
  committed : A → Outcome E A

-- The row with this primary key.
unfoldable pub find_row : ℕ → List Product → Option Product
find_row product_id [] = none
find_row product_id (row ∷ rows) =
    if row.id == product_id then some row else find_row product_id rows

live_row : Option Product → Option Product
live_row none = none
live_row (some row) = if row.is_deleted then none else some row

-- `ProductRepository.find`: the row, unless it is deleted.
unfoldable pub find_product : ℕ → List Product → Option Product
unfolding live_row
find_product product_id rows = live_row (find_row product_id rows)

-- The balance after a movement; `none` where it is below zero.
unfoldable pub balance_after : MovementType → ℕ → ℕ → Option ℕ
balance_after stock_out stock quantity =
    if ltb stock quantity then none else some (stock - quantity)
balance_after _ stock quantity = some (stock + quantity)

trigger_row : Option Product → MovementType → ℕ → ℕ → Option Guard
trigger_row none mtype product_id quantity = some (invalid_product product_id)
trigger_row (some row) mtype product_id quantity =
    if is_out mtype && ltb row.current_stock quantity
    then some (insufficient_stock row.current_stock quantity)
    else none

-- `trg_validate_movement`: the exception that it raises for a new row, if any. That an adjustment
-- leaves a negative balance cannot happen, since quantities are not negative.
unfoldable pub trg_validate_movement : ℕ → MovementType → ℕ → List Product → Option Guard
unfolding trigger_row
trg_validate_movement product_id mtype quantity rows =
    trigger_row (find_row product_id rows) mtype product_id quantity

-- `UPDATE products SET current_stock = ... WHERE id = ...`
unfoldable pub put_stock : ℕ → ℕ → List Product → List Product
put_stock product_id stock =
    update_where (λ row. row.id == product_id) (λ row. record row { current_stock = stock })

unfoldable pub insert_checked :
    Option Guard
    → ℕ
    → ℕ
    → MovementType
    → ℕ
    → Option String
    → Option String
    → Option ℕ
    → Warehouse
    → Outcome Guard (ℕ × Warehouse)
insert_checked (some guard) stock product_id mtype quantity reference notes user_id w = raised guard
insert_checked none stock product_id mtype quantity reference notes user_id w =
    let movement : Movement = record {
      id = w.next_id;
      product_id = product_id;
      mtype = mtype;
      quantity = quantity;
      reference = reference;
      notes = notes;
      user_id = user_id;
    } in
    committed (
      w.next_id,
      record w {
        products = put_stock product_id stock w.products;
        movements = w.movements ++ movement ∷ [];
        next_id = suc w.next_id;
      },
    )

-- The first of the two exceptions.
unfoldable pub first_guard : Option Guard → Option Guard → Option Guard
first_guard (some guard) later = some guard
first_guard none later = later

-- `v_stock + v_delta` is an `INT`.
unfoldable pub range_guard : ℕ → Option Guard
range_guard balance = if leb 2147483648 balance then some (out_of_range balance) else none

-- `reference VARCHAR(100)`
unfoldable pub length_guard : Option String → Option Guard
length_guard none = none
length_guard (some text) = if ltb 100 (length_chars text) then some (value_too_long text) else none

-- `user_id INTEGER REFERENCES users(id)`
unfoldable pub user_guard : Option ℕ → List ℕ → Option Guard
user_guard none users = none
user_guard (some user) users =
    if any_of (λ id. id == user) users then none else some (unknown_user user)

-- What the insertion and the sum raise, if anything. A quantity that is no `INT` itself makes the
-- balance none, or is more than there is.
unfoldable pub insert_guard :
    ℕ → ℕ → MovementType → ℕ → Option String → Option ℕ → Warehouse → Option Guard
unfolding first_guard range_guard length_guard user_guard
insert_guard balance product_id mtype quantity reference user_id w =
    first_guard (range_guard balance) (
      first_guard (length_guard reference) (
        first_guard (trg_validate_movement product_id mtype quantity w.products)
          (user_guard user_id w.users)))

unfoldable pub apply_delta :
    Option ℕ
    → ℕ
    → ℕ
    → MovementType
    → ℕ
    → Option String
    → Option String
    → Option ℕ
    → Warehouse
    → Outcome Guard (ℕ × Warehouse)
apply_delta none stock product_id mtype quantity reference notes user_id w =
    raised (insufficient_stock stock quantity)
apply_delta (some balance) stock product_id mtype quantity reference notes user_id w =
    insert_checked (insert_guard balance product_id mtype quantity reference user_id w) balance
      product_id mtype quantity reference notes user_id w

unfoldable pub record_typed :
    Option MovementType
    → Product
    → ℕ
    → String
    → ℕ
    → Option String
    → Option String
    → Option ℕ
    → Warehouse
    → Outcome Guard (ℕ × Warehouse)
record_typed none row product_id text quantity reference notes user_id w =
    raised (invalid_type text)
record_typed (some mtype) row product_id text quantity reference notes user_id w =
    apply_delta (balance_after mtype row.current_stock quantity) row.current_stock product_id mtype
      quantity reference notes user_id w

unfoldable pub record_found :
    Option Product
    → ℕ
    → String
    → ℕ
    → Option String
    → Option String
    → Option ℕ
    → Warehouse
    → Outcome Guard (ℕ × Warehouse)
record_found none product_id text quantity reference notes user_id w =
    raised (invalid_product product_id)
record_found (some row) product_id text quantity reference notes user_id w =
    record_typed (movement_type text) row product_id text quantity reference notes user_id w

-- `sp_movement_record`: the id of the movement and the tables after the commit, or the exception.
unfoldable pub sp_movement_record :
    ℕ
    → String
    → ℕ
    → Option String
    → Option String
    → Option ℕ
    → Warehouse
    → Outcome Guard (ℕ × Warehouse)
unfolding record_found record_typed apply_delta insert_guard insert_checked
sp_movement_record product_id text quantity reference notes user_id w =
    record_found (find_product product_id w.products) product_id text quantity reference notes
      user_id w
