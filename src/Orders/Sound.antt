-- ===== src/Orders/Sound.antt =====
-- Every operation on purchase orders keeps what is on order equal to what the open orders have
-- outstanding, and receives no more than was ordered.
use inventory_logix_dashboar.Base.{
  ℕ, ◌+◌, ◌-◌, ◌≤◌, ◌≡◌, ◌⊎◌, refl, ap, ◌∙◌, true, false, some, List, [], ◌∷◌, arith, leb,
  if◌then◌else◌, Bool-cases, inl, inr, All,
}
use inventory_logix_dashboar.Stock.{Warehouse, Guard, Outcome, raised, committed}
use inventory_logix_dashboar.Stock.Ledger.{tables_after}
use inventory_logix_dashboar.Orders.{
  PoStatus, draft, approved, in_transit, received, cancelled, same_status, is_open, Order, OrderDb,
  PoGuard, find_order, update_order, update_on_order, book_movement,
}
use inventory_logix_dashboar.Orders.OnOrder.{
  on_order_of, has_row, share, outstanding, on_order_of-update_on_order, has_row-update_on_order,
  KeepsOnOrder, outstanding-update_order, share-outstanding, All-update_order, All-find_order,
}

-- The tables after a transaction: those before, if it raised.
unfoldable pub db_after : Outcome PoGuard OrderDb → OrderDb → OrderDb
db_after (raised e) db = db
db_after (committed db') db = db'

-- No more was received than ordered, nothing of a draft, and the product is in the table.
abbrev pub IsFine : Warehouse → Order → Type 0
IsFine w o =
    (o.received_quantity ≤ o.quantity)
    × (((same_status o.status draft ≡ false) ⊎ (o.received_quantity ≡ 0))
        × (has_row o.product_id w ≡ true))

-- What holds of the tables between two transactions.
pub record IsSound (db : OrderDb) : Type 0 where
  pub fine : All (IsFine db.warehouse) db.orders
  pub counted : (p : ℕ) → on_order_of p db.warehouse ≡ outstanding p db.orders

pub All-IsFine :
    (w w' : Warehouse) (orders : List Order)
    → ((p : ℕ) → has_row p w' ≡ has_row p w)
    → All (IsFine w) orders
    → All (IsFine w') orders
All-IsFine w w' [] same all = tt
All-IsFine w w' (o ∷ orders) same all =
    ((all.0.0, (all.0.1.0, same o.product_id ∙ all.0.1.1)), All-IsFine w w' orders same all.1)

-- One order is rewritten with its quantity and product kept, and what is on order of its product by
-- the change of its share.
pub rewritten-IsSound :
    (k : ℕ) (f : Order → Order) (o : Order) (w : Warehouse) (db : OrderDb)
    → find_order k db.orders ≡ some o
    → (f o).received_quantity ≤ (f o).quantity
    → (same_status (f o).status draft ≡ false) ⊎ ((f o).received_quantity ≡ 0)
    → (f o).product_id ≡ o.product_id
    → ((p : ℕ) → has_row p w ≡ has_row p db.warehouse)
    → ((p : ℕ) → on_order_of p w + share p o ≡ on_order_of p db.warehouse + share p (f o))
    → IsSound db
    → IsSound (record db { warehouse = w; orders = update_order k f db.orders })
rewritten-IsSound k f o w db found within begun same rows change h =
    let old = All-find_order (IsFine db.warehouse) k o db.orders found h.fine in
    record {
      fine =
          All-update_order (IsFine w) k f o db.orders found
            (within, (begun, ap (λ p. has_row p w) same ∙ (rows o.product_id ∙ old.1.1)))
            (All-IsFine db.warehouse w db.orders rows h.fine);
      counted = λ p.
          omega (arith, outstanding-update_order p k f o db.orders found, change p, h.counted p);
    }

-- What the open status of an order's own transition adds to a share.
pub approved_change :
    (p : ℕ) (o : Order) (w : Warehouse)
    → has_row o.product_id w ≡ true
    → is_open o.status ≡ false
    → o.received_quantity ≡ 0
    → on_order_of p (update_on_order o.product_id (λ n. n + o.quantity) w) + share p o
      ≡ on_order_of p w + share p (record o { status = approved })
unfolding share
approved_change p o w row closed fresh =
    rw (on_order_of-update_on_order p o.product_id (λ n. n + o.quantity) w row, closed, fresh)
      (ground arith)

pub cancelled_change :
    (p : ℕ) (o : Order) (w : Warehouse)
    → has_row o.product_id w ≡ true
    → is_open o.status ≡ true
    → share p o ≤ on_order_of p w
    → on_order_of p (update_on_order o.product_id (λ n. n - (o.quantity - o.received_quantity)) w)
        + share p o
      ≡ on_order_of p w + share p (record o { status = cancelled })
unfolding share
cancelled_change p o w row opened bound =
    rw
      (on_order_of-update_on_order p o.product_id (λ n. n - (o.quantity - o.received_quantity)) w
        row)
      (ground (arith, opened))

received_change :
    (p quantity : ℕ) (status : PoStatus) (o : Order) (w w' : Warehouse)
    → has_row o.product_id w' ≡ true
    → on_order_of p w' ≡ on_order_of p w
    → is_open o.status ≡ true
    → quantity ≤ o.quantity - o.received_quantity
    → (is_open status ≡ true) ⊎ (o.quantity ≤ o.received_quantity + quantity)
    → share p o ≤ on_order_of p w
    → on_order_of p (update_on_order o.product_id (λ n. n - quantity) w') + share p o
      ≡ on_order_of p w
        + share p (record o { received_quantity = o.received_quantity + quantity; status = status })
unfolding share
received_change p quantity status o w w' row same opened within (inl still) bound =
    rw (on_order_of-update_on_order p o.product_id (λ n. n - quantity) w' row, same)
      (ground (arith, opened, still))
received_change p quantity status o w w' row same opened within (inr full) bound =
    rw (on_order_of-update_on_order p o.product_id (λ n. n - quantity) w' row, same)
      (ground (arith, opened, full))

-- The status after a receipt is open, or nothing is outstanding.
status_after :
    (o : Order) (quantity : ℕ)
    → let status =
        if leb o.quantity (o.received_quantity + quantity) then received else in_transit in
      ((is_open status ≡ true) ⊎ (o.quantity ≤ o.received_quantity + quantity))
      × (same_status status draft ≡ false)
status_after o quantity = elim (Bool-cases (leb o.quantity (o.received_quantity + quantity))) [
  | inl full ↦ rw full (inr (ground arith), refl)
  | inr part ↦ rw part (inl refl, refl)
]

pub book_movement-IsSound :
    (outcome : Outcome Guard (ℕ × Warehouse)) (o : Order) (quantity : ℕ) (db : OrderDb)
    → find_order o.id db.orders ≡ some o
    → KeepsOnOrder db.warehouse (tables_after outcome db.warehouse)
    → is_open o.status ≡ true
    → quantity ≤ o.quantity - o.received_quantity
    → IsSound db
    → IsSound (db_after (book_movement outcome o quantity db) db)
unfolding book_movement db_after tables_after
book_movement-IsSound (raised guard) o quantity db found keeps opened within h = h
book_movement-IsSound (committed (n, w)) o quantity db found keeps opened within h =
    let old = All-find_order (IsFine db.warehouse) o.id o db.orders found h.fine in
    let after = status_after o quantity in
    rewritten-IsSound o.id _ o (update_on_order o.product_id (λ n. n - quantity) w) db found
      (omega (arith, old.0)) (inl after.1) refl
      (λ p. has_row-update_on_order p o.product_id (λ n. n - quantity) w ∙ (keeps p).1)
      (λ p.
        received_change p quantity _ o db.warehouse w ((keeps o.product_id).1 ∙ old.1.1) (keeps p).0
          opened within after.0 (rw (h.counted p) (share-outstanding p o.id o db.orders found)))
      h
