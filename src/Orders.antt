-- ===== src/Orders.antt =====
-- Purchase orders: the tables `purchase_orders` and `goods_receipts` with the procedures
-- `sp_po_create`, `sp_po_transition`, `sp_goods_receipt_create` and `sp_po_soft_delete` of
-- app/database/procedures.sql, which app/repositories/po_repo.py calls. A transaction that raises
-- leaves the tables as they were. Columns that no operation reads are left out.
pub mod Service
pub mod Prechecks
pub mod OnOrder
pub mod Sound
pub mod Receiving
pub mod Steps
pub mod History
mod Examples
use inventory_logix_dashboar.Base.{
  ℕ, suc, ◌+◌, ◌-◌, String, Bool, true, false, not, ◌&&◌, ◌||◌, Option, none, some, List, [], ◌∷◌,
  ◌++◌, ltb, leb, ◌==◌, str_eq, if◌then◌else◌, update_where, is_some, any_of,
}
use inventory_logix_dashboar.Base.Text.{length_chars}
use inventory_logix_dashboar.Stock.{
  Product, Warehouse, Guard, Outcome, raised, committed, find_row, sp_movement_record,
}

pub data PoStatus : Type 0 where
  draft approved in_transit received cancelled : PoStatus

abbrev pub same_status : PoStatus → PoStatus → Bool
same_status draft draft = true
same_status approved approved = true
same_status in_transit in_transit = true
same_status received received = true
same_status cancelled cancelled = true
same_status _ _ = false

-- The orders that count as on order: approved or in transit.
abbrev pub is_open : PoStatus → Bool
is_open approved = true
is_open in_transit = true
is_open _ = false

-- The transitions of the state machine.
abbrev pub is_allowed : PoStatus → PoStatus → Bool
is_allowed draft approved = true
is_allowed draft cancelled = true
is_allowed approved in_transit = true
is_allowed approved cancelled = true
is_allowed in_transit received = true
is_allowed in_transit cancelled = true
is_allowed _ _ = false

-- A row of `purchase_orders`
pub record Order : Type 0 where
  pub id : ℕ
  pub po_number : String
  pub product_id : ℕ
  pub quantity : ℕ
  pub received_quantity : ℕ
  pub status : PoStatus
  pub is_deleted : Bool

-- A row of `goods_receipts`
pub record Receipt : Type 0 where
  pub po_id : ℕ
  pub quantity : ℕ
  pub received_by : ℕ
  pub notes : String
  pub location : String
  pub idempotency_key : Option String

-- The tables; `next_id` is the sequence of `purchase_orders`. `has_key_constraint` says that
-- `goods_receipts.idempotency_key` is unique by a constraint, as a migration declares it; the partial
-- index of schema.sql is none that `ON CONFLICT (idempotency_key)` can name.
pub record OrderDb : Type 0 where
  pub warehouse : Warehouse
  pub orders : List Order
  pub receipts : List Receipt
  pub has_key_constraint : Bool
  pub next_id : ℕ

-- What the procedures raise.
pub data PoGuard : Type 0 where
  order_not_found : ℕ → PoGuard
  invalid_transition : PoStatus → PoStatus → PoGuard
  receive_not_positive : PoGuard
  exceeds_outstanding : ℕ → ℕ → PoGuard
  user_not_found : ℕ → PoGuard
  key_reused : String → PoGuard
  no_key_constraint : PoGuard
  value_too_long : String → ℕ → PoGuard
  product_missing : ℕ → PoGuard
  number_taken : String → PoGuard
  quantity_not_positive : PoGuard
  movement : Guard → PoGuard

-- The row with this primary key.
unfoldable pub find_order : ℕ → List Order → Option Order
find_order po_id [] = none
find_order po_id (o ∷ orders) = if o.id == po_id then some o else find_order po_id orders

-- `UPDATE purchase_orders SET ... WHERE id = ...`: the one row with this primary key.
unfoldable pub update_order : ℕ → (Order → Order) → List Order → List Order
update_order po_id f [] = []
update_order po_id f (o ∷ orders) =
    let rest = update_order po_id f orders in if o.id == po_id then f o ∷ orders else o ∷ rest

-- `UPDATE products SET on_order = ... WHERE id = ...`
unfoldable pub update_on_order : ℕ → (ℕ → ℕ) → Warehouse → Warehouse
update_on_order product_id f w = record w {
  products =
      update_where (λ row. row.id == product_id) (λ row. record row { on_order = f row.on_order })
        w.products;
}

unfoldable pub set_status : ℕ → PoStatus → OrderDb → OrderDb
set_status po_id status db = record db {
  orders = update_order po_id (λ o. record o { status = status }) db.orders;
}

-- `sp_po_create`, with the constraints of the table: the product exists, the number is new and the
-- quantity positive.
unfoldable pub sp_po_create : String → ℕ → ℕ → PoStatus → OrderDb → Outcome PoGuard (ℕ × OrderDb)
sp_po_create po_number product_id quantity status db =
    let order : Order = record {
      id = db.next_id;
      po_number = po_number;
      product_id = product_id;
      quantity = quantity;
      received_quantity = 0;
      status = status;
      is_deleted = false;
    } in
    let w =
      if is_open status
      then update_on_order product_id (λ n. n + quantity) db.warehouse
      else db.warehouse in
    if not (ltb 0 quantity)
    then raised quantity_not_positive
    else if any_of (λ o. str_eq o.po_number po_number) db.orders
    then raised (number_taken po_number)
    else if not (is_some (find_row product_id db.warehouse.products))
    then raised (product_missing product_id)
    else committed (
      db.next_id,
      record db { warehouse = w; orders = db.orders ++ order ∷ []; next_id = suc db.next_id },
    )

-- Whether a receipt has this key.
unfoldable pub has_key : String → Option String → Bool
has_key key none = false
has_key key (some k) = str_eq k key

-- Whether the unique index on the keys refuses the receipt; no key is no conflict.
unfoldable pub key_taken : Option String → List Receipt → Bool
key_taken none receipts = false
key_taken (some key) receipts = any_of (λ r. has_key key r.idempotency_key) receipts

-- Whether a receipt with this key is for this order and quantity.
unfoldable pub is_replay : Option String → ℕ → ℕ → List Receipt → Bool
is_replay none po_id quantity receipts = false
is_replay (some key) po_id quantity receipts =
    any_of (λ r. has_key key r.idempotency_key && (r.po_id == po_id && r.quantity == quantity))
      receipts

abbrev pub reused : Option String → PoGuard
reused none = key_reused ""
reused (some key) = key_reused key

-- The effects of a receipt: the movement, the amounts and the status, after the receipt's row.
unfoldable pub book_movement :
    Outcome Guard (ℕ × Warehouse) → Order → ℕ → OrderDb → Outcome PoGuard OrderDb
book_movement (raised guard) o quantity db = raised (movement guard)
book_movement (committed (movement_id, w)) o quantity db =
    let total = o.received_quantity + quantity in
    committed (record db {
      warehouse = update_on_order o.product_id (λ n. n - quantity) w;
      orders =
          update_order o.id
            (λ row. record row {
              received_quantity = total;
              status = (if leb row.quantity total then received else in_transit);
            })
            db.orders;
    })

unfoldable pub apply_receipt : Order → ℕ → Option ℕ → OrderDb → Outcome PoGuard OrderDb
unfolding book_movement
apply_receipt o quantity received_by db =
    book_movement
      (sp_movement_record o.product_id "IN" quantity (some o.po_number) (some "PO received")
        received_by db.warehouse)
      o quantity db

-- A text that a column of so many characters does not take.
unfoldable pub length_guard : String → ℕ → Option PoGuard
length_guard text limit =
    if ltb limit (length_chars text) then some (value_too_long text limit) else none

unfoldable pub key_guard : Option String → Option PoGuard
unfolding length_guard
key_guard none = none
key_guard (some key) = length_guard key 64

-- The first of the two exceptions.
unfoldable pub first_guard : Option PoGuard → Option PoGuard → Option PoGuard
first_guard (some guard) later = some guard
first_guard none later = later

-- What `sp_goods_receipt_create` raises, if anything; that the order is in transit is known here.
unfoldable pub receipt_guard : (ℕ → Bool) → ℕ → String → Option String → OrderDb → Option PoGuard
unfolding first_guard length_guard key_guard
receipt_guard user_exists user location key db =
    first_guard (if user_exists user then none else some (user_not_found user)) (
      first_guard (if db.has_key_constraint then none else some no_key_constraint)
        (first_guard (length_guard location 100) (key_guard key)))

unfoldable pub unless_raised : Option PoGuard → Outcome PoGuard OrderDb → Outcome PoGuard OrderDb
unless_raised none next = next
unless_raised (some guard) next = raised guard

-- Where a receiver is given, `sp_goods_receipt_create` comes first; a receipt whose key is taken is a
-- replay, which changes nothing, or an error.
unfoldable pub write_receipt :
    Option ℕ
    → (ℕ → Bool)
    → Order
    → ℕ
    → String
    → String
    → Option String
    → OrderDb
    → Outcome PoGuard OrderDb
unfolding receipt_guard unless_raised apply_receipt
write_receipt none user_exists o quantity notes location key db = apply_receipt o quantity none db
write_receipt (some user) user_exists o quantity notes location key db =
    let receipt : Receipt = record {
      po_id = o.id;
      quantity = quantity;
      received_by = user;
      notes = notes;
      location = location;
      idempotency_key = key;
    } in
    unless_raised (receipt_guard user_exists user location key db) (
      if key_taken key db.receipts
      then (if is_replay key o.id quantity db.receipts then committed db else raised (reused key))
      else apply_receipt o quantity (some user)
          (record db { receipts = db.receipts ++ receipt ∷ [] }))

-- `COALESCE(p_received_quantity, po.quantity)`
abbrev pub receive_quantity : Option ℕ → Order → ℕ
receive_quantity none o = o.quantity
receive_quantity (some n) o = n

unfoldable pub receive_order :
    (ℕ → Bool)
    → Order
    → Option ℕ
    → Option ℕ
    → String
    → String
    → Option String
    → OrderDb
    → Outcome PoGuard OrderDb
unfolding write_receipt
receive_order user_exists o amount received_by notes location key db =
    let quantity = receive_quantity amount o in
    let outstanding = o.quantity - o.received_quantity in
    if not (ltb 0 quantity)
    then raised receive_not_positive
    else if ltb outstanding quantity
    then raised (exceeds_outstanding quantity outstanding)
    else write_receipt received_by user_exists o quantity notes location key db

-- The effects of an allowed transition.
unfoldable pub apply_transition :
    PoStatus
    → (ℕ → Bool)
    → Order
    → Option ℕ
    → Option ℕ
    → String
    → String
    → Option String
    → OrderDb
    → Outcome PoGuard OrderDb
unfolding set_status update_on_order
apply_transition approved user_exists o amount received_by notes location key db = committed (
    set_status o.id approved
      (record db { warehouse = update_on_order o.product_id (λ n. n + o.quantity) db.warehouse }))
apply_transition received user_exists o amount received_by notes location key db =
    receive_order user_exists o amount received_by notes location key db
apply_transition cancelled user_exists o amount received_by notes location key db =
    let w =
      if is_open o.status
      then update_on_order o.product_id (λ n. n - (o.quantity - o.received_quantity)) db.warehouse
      else db.warehouse in
    committed (set_status o.id cancelled (record db { warehouse = w }))
apply_transition status user_exists o amount received_by notes location key db =
    committed (set_status o.id status db)

unfoldable pub transition_found :
    Option Order
    → ℕ
    → (ℕ → Bool)
    → PoStatus
    → Option ℕ
    → Option ℕ
    → String
    → String
    → Option String
    → OrderDb
    → Outcome PoGuard OrderDb
transition_found none po_id user_exists status amount received_by notes location key db =
    raised (order_not_found po_id)
transition_found (some o) po_id user_exists status amount received_by notes location key db =
    if o.is_deleted
    then raised (order_not_found po_id)
    else if same_status o.status status
    then committed db
    else if is_allowed o.status status
    then apply_transition status user_exists o amount received_by notes location key db
    else raised (invalid_transition o.status status)

-- `sp_po_transition`; `user_exists` says which rows the table `users` has.
unfoldable pub sp_po_transition :
    (ℕ → Bool)
    → ℕ
    → PoStatus
    → Option ℕ
    → Option ℕ
    → String
    → String
    → Option String
    → OrderDb
    → Outcome PoGuard OrderDb
unfolding transition_found apply_transition receive_order write_receipt receipt_guard unless_raised
    apply_receipt book_movement
sp_po_transition user_exists po_id status amount received_by notes location key db =
    transition_found (find_order po_id db.orders) po_id user_exists status amount received_by notes
      location key db

-- `sp_po_soft_delete`
unfoldable pub sp_po_soft_delete : ℕ → OrderDb → OrderDb
sp_po_soft_delete po_id db = record db {
  orders = update_order po_id (λ o. record o { is_deleted = true }) db.orders;
}
