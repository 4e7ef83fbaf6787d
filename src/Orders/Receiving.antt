-- ===== src/Orders/Receiving.antt =====
-- A receipt of goods keeps the tables of purchase orders sound.
use inventory_logix_dashboar.Base.{
  ℕ, ◌-◌, ◌≤◌, String, ◌≡◌, Bool, true, Option, none, some, List, arith, ltb, Bool-cases,
  Option-cases, inl, inr,
}
use inventory_logix_dashboar.Stock.{Outcome, raised, committed}
use inventory_logix_dashboar.Orders.{
  is_open, Order, Receipt, OrderDb, PoGuard, find_order, key_taken, is_replay, apply_receipt,
  receipt_guard, unless_raised, write_receipt, receive_quantity, receive_order,
}
use inventory_logix_dashboar.Orders.OnOrder.{sp_movement_record-KeepsOnOrder}
use inventory_logix_dashboar.Orders.Sound.{db_after, IsSound, book_movement-IsSound}

apply_receipt-IsSound :
    (o : Order) (quantity : ℕ) (received_by : Option ℕ) (db : OrderDb)
    → find_order o.id db.orders ≡ some o
    → is_open o.status ≡ true
    → quantity ≤ o.quantity - o.received_quantity
    → IsSound db
    → IsSound (db_after (apply_receipt o quantity received_by db) db)
unfolding apply_receipt
apply_receipt-IsSound o quantity received_by db found opened within h =
    book_movement-IsSound _ o quantity db found
      (sp_movement_record-KeepsOnOrder o.product_id "IN" quantity (some o.po_number)
        (some "PO received") received_by db.warehouse)
      opened within h

-- The tables before a transaction that raised may be those with or without the receipt.
db_after_receipt :
    (outcome : Outcome PoGuard OrderDb) (receipts : List Receipt) (db : OrderDb)
    → IsSound db
    → IsSound (db_after outcome (record db { receipts = receipts }))
    → IsSound (db_after outcome db)
unfolding db_after
db_after_receipt (raised e) receipts db h k = h
db_after_receipt (committed db') receipts db h k = k

with_receipt-IsSound :
    (o : Order) (quantity user : ℕ) (receipts : List Receipt) (db : OrderDb)
    → find_order o.id db.orders ≡ some o
    → is_open o.status ≡ true
    → quantity ≤ o.quantity - o.received_quantity
    → IsSound db
    → IsSound
        (db_after (apply_receipt o quantity (some user) (record db { receipts = receipts })) db)
with_receipt-IsSound o quantity user receipts db found opened within h =
    db_after_receipt (apply_receipt o quantity (some user) (record db { receipts = receipts }))
      receipts db h
      (apply_receipt-IsSound o quantity (some user) (record db { receipts = receipts }) found opened
        within (record { fine = h.fine; counted = h.counted }))

write_receipt-IsSound :
    (received_by : Option ℕ) (user_exists : ℕ → Bool) (o : Order) (quantity : ℕ)
    (notes location : String) (key : Option String) (db : OrderDb)
    → find_order o.id db.orders ≡ some o
    → is_open o.status ≡ true
    → quantity ≤ o.quantity - o.received_quantity
    → IsSound db
    → IsSound (db_after (write_receipt received_by user_exists o quantity notes location key db) db)
unfolding write_receipt unless_raised db_after
write_receipt-IsSound none user_exists o quantity notes location key db found opened within h =
    apply_receipt-IsSound o quantity none db found opened within h
write_receipt-IsSound (some user) user_exists o quantity notes location key db found opened within
      h =
    elim (Option-cases (receipt_guard user_exists user location key db)) [
      | inr (guard, refused) ↦ rw refused h
      | inl clear ↦ rw clear (elim (Bool-cases (key_taken key db.receipts)) [
        | inl taken ↦ rw taken (elim (Bool-cases (is_replay key o.id quantity db.receipts)) [
          | inl replay ↦ rw replay h
          | inr other ↦ rw other h
        ])
        | inr fresh ↦ rw fresh (with_receipt-IsSound o quantity user _ db found opened within h)
      ])
    ]

pub receive_order-IsSound :
    (user_exists : ℕ → Bool) (o : Order) (amount received_by : Option ℕ) (notes location : String)
    (key : Option String) (db : OrderDb)
    → find_order o.id db.orders ≡ some o
    → is_open o.status ≡ true
    → IsSound db
    → IsSound (db_after (receive_order user_exists o amount received_by notes location key db) db)
unfolding receive_order db_after
receive_order-IsSound user_exists o amount received_by notes location key db found opened h =
    let quantity = receive_quantity amount o in
    elim (Bool-cases (ltb 0 quantity)) [
      | inr low ↦ rw low h
      | inl positive ↦
          rw positive (elim (Bool-cases (ltb (o.quantity - o.received_quantity) quantity)) [
            | inl over ↦ rw over h
            | inr within ↦ rw within (
                write_receipt-IsSound received_by user_exists o quantity notes location key db found
                  opened (ground arith) h)
          ])
    ]
