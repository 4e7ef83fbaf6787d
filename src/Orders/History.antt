-- ===== src/Orders/History.antt =====
-- Histories of the purchase orders: creations, transitions with receipts, and deletions, in any order.
use inventory_logix_dashboar.Base.{
  ℕ, ◌+◌, String, ◌≡◌, refl, ◌∙◌, Bool, true, false, not, Option, List, [], ◌∷◌, ◌++◌, arith, ltb,
  if◌then◌else◌, inl, inr, is_some, any_of, str_eq, All-append, Option-cases,
}
use inventory_logix_dashboar.Stock.{Warehouse, Outcome, raised, committed, find_row}
use inventory_logix_dashboar.Orders.{
  PoStatus, is_open, Order, OrderDb, PoGuard, find_order, update_on_order, sp_po_create,
  sp_po_transition, sp_po_soft_delete,
}
use inventory_logix_dashboar.Orders.OnOrder.{
  on_order_of, has_row, share, has_row-update_on_order, outstanding-append, All-find_order,
  update_order_absent,
}
use inventory_logix_dashboar.Orders.Sound.{db_after, IsFine, IsSound, rewritten-IsSound, All-IsFine}
use inventory_logix_dashboar.Orders.Steps.{sp_po_transition-IsSound, create_share}

-- A call of the repository.
pub data Call : Type 0 where
  create : String → ℕ → ℕ → PoStatus → Call
  transition : ℕ → PoStatus → Option ℕ → Option ℕ → String → String → Option String → Call
  soft_delete : ℕ → Call

-- The tables after `sp_po_create`
unfoldable pub created : Outcome PoGuard (ℕ × OrderDb) → OrderDb → OrderDb
created (raised e) db = db
created (committed (n, db')) db = db'

unfoldable pub perform : (ℕ → Bool) → Call → OrderDb → OrderDb
perform user_exists (create po_number product_id quantity status) db =
    created (sp_po_create po_number product_id quantity status db) db
perform user_exists (transition po_id status amount received_by notes location key) db =
    db_after (sp_po_transition user_exists po_id status amount received_by notes location key db) db
perform user_exists (soft_delete po_id) db = sp_po_soft_delete po_id db

unfoldable pub perform_all : (ℕ → Bool) → List Call → OrderDb → OrderDb
perform_all user_exists [] db = db
perform_all user_exists (c ∷ calls) db = perform_all user_exists calls (perform user_exists c db)

either-created :
    (b : Bool) (x y : Outcome PoGuard (ℕ × OrderDb)) (db : OrderDb)
    → IsSound (created x db)
    → (b ≡ false → IsSound (created y db))
    → IsSound (created (if b then x else y) db)
either-created true x y db h k = h
either-created false x y db h k = k refl

added-IsSound :
    (o : Order) (w : Warehouse) (n : ℕ) (db : OrderDb)
    → o.received_quantity ≡ 0
    → has_row o.product_id db.warehouse ≡ true
    → ((p : ℕ) → has_row p w ≡ has_row p db.warehouse)
    → ((p : ℕ) → on_order_of p w ≡ on_order_of p db.warehouse + share p o)
    → IsSound db
    → IsSound (record db { warehouse = w; orders = db.orders ++ o ∷ []; next_id = n })
added-IsSound o w n db fresh row rows change h = record {
  fine =
      All-append (IsFine w) db.orders (o ∷ []) (All-IsFine db.warehouse w db.orders rows h.fine)
        ((omega (arith, fresh), (inr fresh, rows o.product_id ∙ row)), tt);
  counted = λ p. omega (arith, change p, h.counted p, outstanding-append p o db.orders);
}

rows_kept :
    (b : Bool) (p k : ℕ) (f : ℕ → ℕ) (w : Warehouse)
    → has_row p (if b then update_on_order k f w else w) ≡ has_row p w
rows_kept true p k f w = has_row-update_on_order p k f w
rows_kept false p k f w = refl

flip_false : (b : Bool) → not b ≡ false → b ≡ true
flip_false true h = refl
flip_false false h = cc

sp_po_create-IsSound :
    (po_number : String) (product_id quantity : ℕ) (status : PoStatus) (db : OrderDb)
    → IsSound db
    → IsSound (created (sp_po_create po_number product_id quantity status db) db)
unfolding sp_po_create created has_row
sp_po_create-IsSound po_number product_id quantity status db h =
    either-created (not (ltb 0 quantity)) _ _ db h λ positive.
      either-created (any_of (λ o. str_eq o.po_number po_number) db.orders) _ _ db h λ fresh.
        either-created (not (is_some (find_row product_id db.warehouse.products))) _ _ db h λ there.
          let row = flip_false _ there in
          added-IsSound _ _ _ db refl row
            (λ p. rows_kept (is_open status) p product_id _ db.warehouse)
            (λ p. create_share p quantity status product_id db.warehouse _ row refl refl refl refl)
            h

deleted_share : (p : ℕ) (o : Order) → share p (record o { is_deleted = true }) ≡ share p o
unfolding share
deleted_share p o = refl

sp_po_soft_delete-IsSound :
    (po_id : ℕ) (db : OrderDb) → IsSound db → IsSound (sp_po_soft_delete po_id db)
unfolding sp_po_soft_delete
sp_po_soft_delete-IsSound po_id db h = elim (Option-cases (find_order po_id db.orders)) [
  | inl absent ↦ rw (update_order_absent po_id _ db.orders absent) h
  | inr (o, found) ↦
      let old = All-find_order (IsFine db.warehouse) po_id o db.orders found h.fine in
      rewritten-IsSound po_id _ o db.warehouse db found old.0 old.1.0 refl (λ p. refl)
        (λ p. rw (deleted_share p o) refl) h
]

perform-IsSound :
    (user_exists : ℕ → Bool) (c : Call) (db : OrderDb)
    → IsSound db
    → IsSound (perform user_exists c db)
unfolding perform
perform-IsSound user_exists (create po_number product_id quantity status) db h =
    sp_po_create-IsSound po_number product_id quantity status db h
perform-IsSound user_exists (transition po_id status amount received_by notes location key) db h =
    sp_po_transition-IsSound user_exists po_id status amount received_by notes location key db h
perform-IsSound user_exists (soft_delete po_id) db h = sp_po_soft_delete-IsSound po_id db h

-- From tables where this holds, after any creations, transitions, receipts, replays and deletions, whether they commit or raise:
-- what each product has on order is just what its approved and in-transit orders have outstanding,
-- and no order has received more than was ordered.
pub perform_all-IsSound :
    (user_exists : ℕ → Bool) (calls : List Call) (db : OrderDb)
    → IsSound db
    → IsSound (perform_all user_exists calls db)
unfolding perform_all
perform_all-IsSound user_exists [] db h = h
perform_all-IsSound user_exists (c ∷ calls) db h =
    perform_all-IsSound user_exists calls (perform user_exists c db)
      (perform-IsSound user_exists c db h)
