-- ===== src/Stock/Ledger.antt =====
-- The stock of a product and the ledger of its movements: what `sp_movement_record` keeps, and with
-- it `MovementService.record`, whatever other transactions come in between.
use inventory_logix_dashboar.Base.{
  ℕ, ◌+◌, String, ◌≡◌, refl, ap, ◌∙◌, Bool, true, false, not, ◌&&◌, Option, none, some, List, [],
  ◌∷◌, ◌++◌, arith, ◌==◌, if◌then◌else◌, Bool-cases, Option-cases, inl, inr, update_where,
}
use inventory_logix_dashboar.Stock.{
  MovementType, stock_in, stock_out, adjustment, stock_return, movement_type, is_out, Product,
  Movement, Warehouse, Guard, Outcome, raised, committed, find_row, live_row, find_product,
  balance_after, insert_guard, put_stock, insert_checked, apply_delta, record_typed, record_found,
  sp_movement_record,
}

-- The tables after a transaction: those before, if it raised.
unfoldable pub tables_after : {E : Type 0} → Outcome E (ℕ × Warehouse) → Warehouse → Warehouse
tables_after (raised e) w = w
tables_after (committed (n, w')) w = w'

unfoldable pub row_stock : Option Product → ℕ
row_stock none = 0
row_stock (some row) = row.current_stock

-- The stock of the product with this id; 0 if there is none.
unfoldable pub stock_of : ℕ → List Product → ℕ
unfolding row_stock
stock_of p rows = row_stock (find_row p rows)

-- What the ledger has moved in, and out, of a product.
unfoldable pub moved : Bool → ℕ → List Movement → ℕ
moved out p [] = 0
moved out p (m ∷ movements) =
    let rest = moved out p movements in
    if m.product_id == p && (if out then is_out m.mtype else not (is_out m.mtype))
    then m.quantity + rest
    else rest

-- Each product's stock is its opening stock with the movements of the ledger.
abbrev pub IsBalanced : (ℕ → ℕ) → Warehouse → Type 0
IsBalanced opening w =
    (p : ℕ)
    → stock_of p w.products + moved true p w.movements ≡ opening p + moved false p w.movements

moved-snoc :
    (out : Bool) (p : ℕ) (movements : List Movement) (m : Movement)
    → moved out p (movements ++ m ∷ []) ≡ moved out p movements + moved out p (m ∷ [])
unfolding moved
moved-snoc out p [] m = ground arith
moved-snoc out p (n ∷ movements) m = ground (arith, moved-snoc out p movements m)

-- A row that is found, with the new stock if it is the one written.
with_stock : Bool → ℕ → Option Product → Option Product
with_stock written stock none = none
with_stock true stock (some row) = some (record row { current_stock = stock })
with_stock false stock (some row) = some row

with_stock-false : (stock : ℕ) (o : Option Product) → with_stock false stock o ≡ o
unfolding with_stock
with_stock-false stock none = refl
with_stock-false stock (some row) = refl

find_row-put_stock :
    (p k stock : ℕ) (rows : List Product)
    → find_row p (put_stock k stock rows) ≡ with_stock (k == p) stock (find_row p rows)
unfolding put_stock find_row update_where with_stock
find_row-put_stock p k stock [] = refl
find_row-put_stock p k stock (x ∷ rows) = elim (Bool-cases (x.id == k)) [
  | inl same ↦ rw same (elim (Bool-cases (x.id == p)) [
    | inl here ↦ let e : (k == p) ≡ true = ground arith in rw (here, e) refl
    | inr there ↦
        let e : (k == p) ≡ false = ground arith in
        rw (there, e, with_stock-false stock (find_row p rows))
          (find_row-put_stock p k stock rows ∙ (rw e (with_stock-false stock (find_row p rows))))
  ])
  | inr other ↦ rw other (elim (Bool-cases (x.id == p)) [
    | inl here ↦ let e : (k == p) ≡ false = ground arith in rw (here, e) refl
    | inr there ↦ rw there (find_row-put_stock p k stock rows)
  ])
]

pub stock_of-put_stock :
    (p k stock : ℕ) (row : Product) (rows : List Product)
    → find_row k rows ≡ some row
    → stock_of p (put_stock k stock rows) ≡ (if k == p then stock else stock_of p rows)
unfolding stock_of row_stock with_stock
stock_of-put_stock p k stock row rows h = elim (Bool-cases (k == p)) [
  | inl same ↦
      rw (find_row-put_stock p k stock rows)
        (let e : k ≡ p = ground arith in rw (rw e at h) (rw same refl))
  | inr other ↦
      rw (find_row-put_stock p k stock rows, other)
        (ap row_stock (with_stock-false stock (find_row p rows)))
]

-- The new balance is the old one with the movement.
balance_after_lem :
    (mtype : MovementType) (stock quantity balance : ℕ)
    → balance_after mtype stock quantity ≡ some balance
    → balance + (if is_out mtype then quantity else 0)
      ≡ stock + (if is_out mtype then 0 else quantity)
unfolding balance_after
balance_after_lem stock_in stock quantity balance h = ground arith
balance_after_lem stock_out stock quantity balance h = ground arith
balance_after_lem adjustment stock quantity balance h = ground arith
balance_after_lem stock_return stock quantity balance h = ground arith

-- What one more movement adds to the ledger of a product.
moved-one :
    (out : Bool) (p : ℕ) (m : Movement)
    → moved out p (m ∷ []) ≡ (
        if m.product_id == p && (if out then is_out m.mtype else not (is_out m.mtype))
        then m.quantity
        else 0)
unfolding moved
moved-one out p m = ground arith

found_stock :
    (k p : ℕ) (row : Product) (rows : List Product)
    → find_row k rows ≡ some row
    → (k == p) ≡ true
    → stock_of p rows ≡ row.current_stock
unfolding stock_of row_stock
found_stock k p row rows h same = let e : k ≡ p = ground arith in rw (rw e at h) refl

live_row_found : (o : Option Product) (row : Product) → live_row o ≡ some row → o ≡ some row
unfolding live_row
live_row_found none row h = cc
live_row_found (some x) row h = ground arith

pub find_product-find_row :
    (k : ℕ) (row : Product) (rows : List Product)
    → find_product k rows ≡ some row
    → find_row k rows ≡ some row
unfolding find_product
find_product-find_row k row rows h = live_row_found (find_row k rows) row h

module _ (opening : ℕ → ℕ) where
  applied-IsBalanced :
      (balance : ℕ) (row : Product) (w : Warehouse) (m : Movement)
      → find_row m.product_id w.products ≡ some row
      → balance_after m.mtype row.current_stock m.quantity ≡ some balance
      → IsBalanced opening w
      → (p : ℕ)
      → stock_of p (put_stock m.product_id balance w.products)
          + moved true p (w.movements ++ m ∷ [])
        ≡ opening p + moved false p (w.movements ++ m ∷ [])
  applied-IsBalanced balance row w m found new h p =
      let put = stock_of-put_stock p m.product_id balance row w.products found in
      let old = found_stock m.product_id p row w.products found in
      let delta = balance_after_lem m.mtype row.current_stock m.quantity balance new in
      let outs =
        moved-snoc true p w.movements m
        ∙ ap (λ n. moved true p w.movements + n) (moved-one true p m) in
      let ins =
        moved-snoc false p w.movements m
        ∙ ap (λ n. moved false p w.movements + n) (moved-one false p m) in
      let before = h p in
      rw (put, outs, ins)
        (elim (Bool-cases (m.product_id == p)) [
          | inl same ↦ let stock = old same in rw same (ground (arith, delta, before, stock))
          | inr other ↦ rw other (omega (arith, before))
        ])

  insert_checked-IsBalanced :
      (guard : Option Guard) (balance product_id : ℕ) (mtype : MovementType) (quantity : ℕ)
      (reference notes : Option String) (user_id : Option ℕ) (row : Product) (w : Warehouse)
      → find_row product_id w.products ≡ some row
      → balance_after mtype row.current_stock quantity ≡ some balance
      → IsBalanced opening w
      → IsBalanced opening (
          tables_after
            (insert_checked guard balance product_id mtype quantity reference notes user_id w)
            w)
  unfolding insert_checked tables_after
  insert_checked-IsBalanced (some guard) balance product_id mtype quantity reference notes user_id
        row w found new h =
      h
  insert_checked-IsBalanced none balance product_id mtype quantity reference notes user_id row w
        found new h =
      applied-IsBalanced balance row w _ found new h

  record_typed-IsBalanced :
      (typed : Option MovementType) (row : Product) (product_id : ℕ) (text : String) (quantity : ℕ)
      (reference notes : Option String) (user_id : Option ℕ) (w : Warehouse)
      → find_row product_id w.products ≡ some row
      → IsBalanced opening w
      → IsBalanced opening (
          tables_after
            (record_typed typed row product_id text quantity reference notes user_id w)
            w)
  unfolding record_typed apply_delta tables_after
  record_typed-IsBalanced none row product_id text quantity reference notes user_id w found h = h
  record_typed-IsBalanced (some mtype) row product_id text quantity reference notes user_id w found
        h =
      elim (Option-cases (balance_after mtype row.current_stock quantity)) [
        | inl below ↦ rw below h
        | inr (balance, new) ↦ rw new (
            insert_checked-IsBalanced
              (insert_guard balance product_id mtype quantity reference user_id w) balance
              product_id mtype quantity reference notes user_id row w found new h)
      ]

  -- The procedure keeps every product's stock equal to its opening stock with the movements of the
  -- ledger, whether it commits or raises.
  pub sp_movement_record-IsBalanced :
      (product_id : ℕ) (text : String) (quantity : ℕ) (reference notes : Option String)
      (user_id : Option ℕ) (w : Warehouse)
      → IsBalanced opening w
      → IsBalanced opening
          (tables_after (sp_movement_record product_id text quantity reference notes user_id w) w)
  unfolding sp_movement_record record_found find_product tables_after
  sp_movement_record-IsBalanced product_id text quantity reference notes user_id w h =
      elim (Option-cases (find_product product_id w.products)) [
        | inl absent ↦ rw absent h
        | inr (row, found) ↦ rw found (
            record_typed-IsBalanced (movement_type text) row product_id text quantity reference
              notes user_id w (live_row_found _ row found) h)
      ]
