-- ===== src/Stock/Requests.antt =====
-- Requests of `MovementService.record`: what they keep under any interleaving, and what the early
-- check is worth when nothing comes in between.
use inventory_logix_dashboar.Base.{
  false, ℕ, zero, suc, ◌≤◌, ◌<◌, ◌==◌, ltb, leb, ltb→lt, leb→le, any_of, Bool-cases, String, ◌≡◌,
  refl, sym, ◌∙◌, Option, none, some, List, [], ◌∷◌, ◌++◌, arith, Option-cases, inl, inr,
}
use inventory_logix_dashboar.Base.Text.{length_chars}
use inventory_logix_dashboar.Base.Int.{ℤ}
use inventory_logix_dashboar.Stock.{
  MovementType, stock_in, stock_out, adjustment, stock_return, movement_type, Product, Warehouse,
  Guard, Outcome, raised, committed, find_row, find_product, balance_after, trg_validate_movement,
  trigger_row, put_stock, insert_checked, out_of_range, value_too_long, unknown_user, first_guard,
  range_guard, length_guard, user_guard, insert_guard, apply_delta, record_typed, record_found,
  sp_movement_record,
}
use inventory_logix_dashboar.Stock.Record.{
  MovementError, database, AuditDetail, Db, positive, record_movement, audited, prechecked, found,
  sized, typed,
}
use inventory_logix_dashboar.Stock.Ledger.{
  tables_after, stock_of, IsBalanced, sp_movement_record-IsBalanced, stock_of-put_stock,
  find_product-find_row,
}

-- The database after a request.
unfoldable pub db_after : Outcome MovementError (ℕ × Db) → Db → Db
db_after (raised e) db = db
db_after (committed (n, db')) db = db'

-- A request, with the products that its early check reads.
pub record Request : Type 0 where
  pub seen : List Product
  pub product_id : ℕ
  pub mtype : String
  pub quantity : Option ℤ
  pub reference : Option String
  pub notes : Option String
  pub user_id : Option ℕ

unfoldable pub perform : Request → Db → Db
perform r db =
    db_after
      (record_movement r.seen r.product_id r.mtype r.quantity r.reference r.notes r.user_id db) db

unfoldable pub perform_all : List Request → Db → Db
perform_all [] db = db
perform_all (r ∷ requests) db = perform_all requests (perform r db)

module _ (opening : ℕ → ℕ) where
  audited-IsBalanced :
      (outcome : Outcome Guard (ℕ × Warehouse)) (product : Product) (product_id : ℕ)
      (mtype : MovementType) (quantity new_stock : ℕ) (user_id : Option ℕ) (db : Db)
      → IsBalanced opening (tables_after outcome db.warehouse)
      → IsBalanced opening
          (db_after
            (audited outcome product product_id mtype quantity new_stock user_id db)
            db).warehouse
  unfolding audited db_after tables_after
  audited-IsBalanced (raised guard) product product_id mtype quantity new_stock user_id db h = h
  audited-IsBalanced (committed (n, w)) product product_id mtype quantity new_stock user_id db h = h

  sized-IsBalanced :
      (size : Option ℕ) (seen : List Product) (product_id : ℕ) (mtype : MovementType)
      (text : String) (reference notes : Option String) (user_id : Option ℕ) (db : Db)
      → IsBalanced opening db.warehouse
      → IsBalanced opening
          (db_after (sized size seen product_id mtype text reference notes user_id db) db).warehouse
  unfolding sized found prechecked db_after
  sized-IsBalanced none seen product_id mtype text reference notes user_id db h = h
  sized-IsBalanced (some quantity) seen product_id mtype text reference notes user_id db h =
      elim (Option-cases (find_product product_id seen)) [
        | inl absent ↦ rw absent h
        | inr (product, present) ↦
            rw present (elim (Option-cases (balance_after mtype product.current_stock quantity)) [
              | inl below ↦ rw below h
              | inr (new_stock, new) ↦ rw new (
                  audited-IsBalanced
                    (sp_movement_record product_id text quantity reference notes user_id
                      db.warehouse)
                    product product_id mtype quantity new_stock user_id db
                    (sp_movement_record-IsBalanced opening product_id text quantity reference notes
                      user_id db.warehouse h))
            ])
      ]

  typed-IsBalanced :
      (mtype : Option MovementType) (seen : List Product) (product_id : ℕ) (text : String)
      (quantity : Option ℤ) (reference notes : Option String) (user_id : Option ℕ) (db : Db)
      → IsBalanced opening db.warehouse
      → IsBalanced opening
          (db_after
            (typed mtype seen product_id text quantity reference notes user_id db)
            db).warehouse
  unfolding typed db_after
  typed-IsBalanced none seen product_id text quantity reference notes user_id db h = h
  typed-IsBalanced (some mtype) seen product_id text quantity reference notes user_id db h =
      sized-IsBalanced (positive quantity) seen product_id mtype text reference notes user_id db h

  record_movement-IsBalanced :
      (seen : List Product) (product_id : ℕ) (text : String) (quantity : Option ℤ)
      (reference notes : Option String) (user_id : Option ℕ) (db : Db)
      → IsBalanced opening db.warehouse
      → IsBalanced opening
          (db_after
            (record_movement seen product_id text quantity reference notes user_id db)
            db).warehouse
  unfolding record_movement db_after
  record_movement-IsBalanced seen zero text quantity reference notes user_id db h = h
  record_movement-IsBalanced seen (suc n) text quantity reference notes user_id db h =
      typed-IsBalanced (movement_type text) seen (suc n) text quantity reference notes user_id db h

  -- If it is so at first: whatever requests come in, and however old the products are that their early checks read, each
  -- product's stock stays its opening stock with the movements of the ledger: no movement is lost,
  -- applied twice, or takes out more than there is.
  pub perform_all-IsBalanced :
      (requests : List Request) (db : Db)
      → IsBalanced opening db.warehouse
      → IsBalanced opening (perform_all requests db).warehouse
  unfolding perform perform_all
  perform_all-IsBalanced [] db h = h
  perform_all-IsBalanced (r ∷ requests) db h = perform_all-IsBalanced requests (perform r db) (
      record_movement-IsBalanced r.seen r.product_id r.mtype r.quantity r.reference r.notes
        r.user_id db h)

-- The new stock that the last audit row gives.
abbrev pub announced : List AuditDetail → ℕ
announced [] = 0
announced (detail ∷ []) = detail.new_stock
announced (detail ∷ other ∷ rest) = announced (other ∷ rest)

-- What the early check leaves to the database: a balance that is no 32-bit integer, a reference of more
-- than 100 characters, and a user who is not there.
abbrev pub IsLimit : List ℕ → Guard → Type 0
IsLimit users (out_of_range n) = 2147483648 ≤ n
IsLimit users (value_too_long text) = 100 < length_chars text
IsLimit users (unknown_user user) = any_of (λ id. id == user) users ≡ false
IsLimit users _ = ⊥

-- The request ends in an error of its own checks, or at a limit of the database, or commits and announces
-- the stock that the product then has.
unfoldable pub IsHonest : ℕ → List ℕ → Outcome MovementError (ℕ × Db) → Type 0
IsHonest product_id users (raised (database guard)) = IsLimit users guard
IsHonest product_id users (raised _) = Unit
IsHonest product_id users (committed (n, db')) =
    stock_of product_id db'.warehouse.products ≡ announced db'.audit

announced-snoc :
    (audit : List AuditDetail) (detail : AuditDetail)
    → announced (audit ++ detail ∷ []) ≡ detail.new_stock
announced-snoc [] detail = refl
announced-snoc (x ∷ []) detail = refl
announced-snoc (x ∷ y ∷ audit) detail = announced-snoc (y ∷ audit) detail

-- The trigger accepts what the procedure has checked.
trigger_accepts :
    (mtype : MovementType) (product_id quantity balance : ℕ) (row : Product) (rows : List Product)
    → find_row product_id rows ≡ some row
    → balance_after mtype row.current_stock quantity ≡ some balance
    → trg_validate_movement product_id mtype quantity rows ≡ none
unfolding trg_validate_movement trigger_row balance_after
trigger_accepts stock_in product_id quantity balance row rows found new = rw found refl
trigger_accepts stock_out product_id quantity balance row rows found new = rw found (ground arith)
trigger_accepts adjustment product_id quantity balance row rows found new = rw found refl
trigger_accepts stock_return product_id quantity balance row rows found new = rw found refl

same_stock :
    (product_id stock : ℕ) (row : Product) (rows : List Product)
    → find_row product_id rows ≡ some row
    → stock_of product_id (put_stock product_id stock rows) ≡ stock
same_stock product_id stock row rows h =
    ground (arith, stock_of-put_stock product_id product_id stock row rows h)

-- A guard, if there is one, is a limit.
abbrev LimitIf : List ℕ → Option Guard → Type 0
LimitIf users none = Unit
LimitIf users (some guard) = IsLimit users guard

first_guard-LimitIf :
    (users : List ℕ) (a b : Option Guard)
    → LimitIf users a
    → LimitIf users b
    → LimitIf users (first_guard a b)
unfolding first_guard
first_guard-LimitIf users (some guard) b h k = h
first_guard-LimitIf users none b h k = k

range_guard-LimitIf : (users : List ℕ) (balance : ℕ) → LimitIf users (range_guard balance)
unfolding range_guard
range_guard-LimitIf users balance = elim (Bool-cases (leb 2147483648 balance)) [
  | inl over ↦ rw over (leb→le _ _ over)
  | inr fits ↦ rw fits tt
]

length_guard-LimitIf :
    (users : List ℕ) (reference : Option String) → LimitIf users (length_guard reference)
unfolding length_guard
length_guard-LimitIf users none = tt
length_guard-LimitIf users (some text) = elim (Bool-cases (ltb 100 (length_chars text))) [
  | inl long ↦ rw long (ltb→lt _ _ long)
  | inr short ↦ rw short tt
]

user_guard-LimitIf :
    (user_id : Option ℕ) (users : List ℕ) → LimitIf users (user_guard user_id users)
unfolding user_guard
user_guard-LimitIf none users = tt
user_guard-LimitIf (some user) users = elim (Bool-cases (any_of (λ id. id == user) users)) [
  | inl known ↦ rw known tt
  | inr missing ↦ rw missing missing
]

-- Where the trigger accepts, only limits are left.
insert_guard-LimitIf :
    (balance product_id : ℕ) (mtype : MovementType) (quantity : ℕ) (reference : Option String)
    (user_id : Option ℕ) (w : Warehouse)
    → trg_validate_movement product_id mtype quantity w.products ≡ none
    → LimitIf w.users (insert_guard balance product_id mtype quantity reference user_id w)
unfolding insert_guard
insert_guard-LimitIf balance product_id mtype quantity reference user_id w accepted =
    first_guard-LimitIf w.users _ _ (range_guard-LimitIf w.users balance) (
      first_guard-LimitIf w.users _ _ (length_guard-LimitIf w.users reference) (
        first_guard-LimitIf w.users (trg_validate_movement product_id mtype quantity w.products) _
          (rw accepted tt) (user_guard-LimitIf user_id w.users)))

inserted-IsHonest :
    (guard : Option Guard) (product_id quantity balance : ℕ) (mtype : MovementType) (row : Product)
    (reference notes : Option String) (user_id : Option ℕ) (db : Db)
    → LimitIf db.warehouse.users guard
    → find_row product_id db.warehouse.products ≡ some row
    → IsHonest product_id db.warehouse.users (
        audited
          (insert_checked guard balance product_id mtype quantity reference notes user_id
            db.warehouse)
          row
          product_id
          mtype
          quantity
          balance
          user_id
          db)
unfolding insert_checked audited IsHonest
inserted-IsHonest (some guard) product_id quantity balance mtype row reference notes user_id db
      limit present =
    limit
inserted-IsHonest none product_id quantity balance mtype row reference notes user_id db limit
      present =
    same_stock product_id balance row db.warehouse.products present
    ∙ sym (announced-snoc db.audit _)

committed-IsHonest :
    (product_id quantity balance : ℕ) (mtype : MovementType) (text : String) (row : Product)
    (reference notes : Option String) (user_id : Option ℕ) (db : Db)
    → movement_type text ≡ some mtype
    → find_product product_id db.warehouse.products ≡ some row
    → balance_after mtype row.current_stock quantity ≡ some balance
    → IsHonest product_id db.warehouse.users (
        audited
          (sp_movement_record product_id text quantity reference notes user_id db.warehouse)
          row
          product_id
          mtype
          quantity
          balance
          user_id
          db)
unfolding sp_movement_record record_found record_typed apply_delta
committed-IsHonest product_id quantity balance mtype text row reference notes user_id db typed_as
      live new =
    let present = find_product-find_row product_id row db.warehouse.products live in
    let accepted =
      trigger_accepts mtype product_id quantity balance row db.warehouse.products present new in
    rw (live, typed_as, new)
      (inserted-IsHonest
        (insert_guard balance product_id mtype quantity reference user_id db.warehouse) product_id
        quantity balance mtype row reference notes user_id db
        (insert_guard-LimitIf balance product_id mtype quantity reference user_id db.warehouse
          accepted)
        present)

sized-IsHonest :
    (size : Option ℕ) (product_id : ℕ) (mtype : MovementType) (text : String)
    (reference notes : Option String) (user_id : Option ℕ) (db : Db)
    → movement_type text ≡ some mtype
    → IsHonest product_id db.warehouse.users
        (sized size db.warehouse.products product_id mtype text reference notes user_id db)
unfolding sized found prechecked IsHonest
sized-IsHonest none product_id mtype text reference notes user_id db typed_as = tt
sized-IsHonest (some quantity) product_id mtype text reference notes user_id db typed_as =
    elim (Option-cases (find_product product_id db.warehouse.products)) [
      | inl absent ↦ rw absent tt
      | inr (row, live) ↦
          rw live (elim (Option-cases (balance_after mtype row.current_stock quantity)) [
            | inl below ↦ rw below tt
            | inr (balance, new) ↦ rw new (
                committed-IsHonest product_id quantity balance mtype text row reference notes
                  user_id db typed_as live new)
          ])
    ]

-- When nothing is written between the early check and the procedure, the early check decides, but for the
-- limits of the columns: the request ends in an error of its own, or it commits and the audit row gives
-- the product's stock as it is after the commit, or the database raises because the new stock is no
-- 32-bit integer, the reference has more than 100 characters, or the user is not there.
pub record_movement-IsHonest :
    (product_id : ℕ) (text : String) (quantity : Option ℤ) (reference notes : Option String)
    (user_id : Option ℕ) (db : Db)
    → IsHonest product_id db.warehouse.users
        (record_movement db.warehouse.products product_id text quantity reference notes user_id db)
unfolding record_movement typed IsHonest
record_movement-IsHonest zero text quantity reference notes user_id db = tt
record_movement-IsHonest (suc n) text quantity reference notes user_id db =
    elim (Option-cases (movement_type text)) [
      | inl other ↦ rw other tt
      | inr (mtype, typed_as) ↦ rw typed_as (
          sized-IsHonest (positive quantity) (suc n) mtype text reference notes user_id db typed_as)
    ]
