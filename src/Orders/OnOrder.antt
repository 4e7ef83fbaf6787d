-- ===== src/Orders/OnOrder.antt =====
-- The quantity on order of a product, and what the open orders have outstanding.
use inventory_logix_dashboar.Base.{
  ℕ, ◌+◌, ◌-◌, ◌≤◌, String, ◌≡◌, refl, sym, ap, ◌∙◌, Bool, true, false, ◌&&◌, Option, none, some,
  List, [], ◌∷◌, ◌++◌, arith, ◌==◌, if◌then◌else◌, Bool-cases, Option-cases, inl, inr, update_where,
  is_some, All,
}
use inventory_logix_dashboar.Stock.{
  MovementType, movement_type, Product, Movement, Warehouse, Guard, find_row, put_stock,
  find_product, balance_after, insert_guard, sp_movement_record, insert_checked, apply_delta,
  record_typed, record_found,
}
use inventory_logix_dashboar.Stock.Ledger.{tables_after}
use inventory_logix_dashboar.Orders.{is_open, Order, find_order, update_order, update_on_order}

unfoldable pub row_on_order : Option Product → ℕ
row_on_order none = 0
row_on_order (some row) = row.on_order

-- The column `on_order` of the product with this id; 0 if there is none.
unfoldable pub on_order_of : ℕ → Warehouse → ℕ
unfolding row_on_order
on_order_of p w = row_on_order (find_row p w.products)

-- Whether the product is in the table.
unfoldable pub has_row : ℕ → Warehouse → Bool
has_row p w = is_some (find_row p w.products)

-- What an order adds to the quantity on order of a product.
unfoldable pub share : ℕ → Order → ℕ
share p o = if o.product_id == p && is_open o.status then o.quantity - o.received_quantity else 0

-- What the open orders of a product have outstanding.
unfoldable pub outstanding : ℕ → List Order → ℕ
outstanding p [] = 0
outstanding p (o ∷ orders) = share p o + outstanding p orders

written : Bool → (Product → Product) → Option Product → Option Product
written b g none = none
written true g (some row) = some (g row)
written false g (some row) = some row

written-false : (g : Product → Product) (o : Option Product) → written false g o ≡ o
unfolding written
written-false g none = refl
written-false g (some row) = refl

find_row-update_where :
    (p k : ℕ) (g : Product → Product) (same : (row : Product) → (g row).id ≡ row.id)
    (rows : List Product)
    → find_row p (update_where (λ row. row.id == k) g rows) ≡ written (k == p) g (find_row p rows)
unfolding find_row update_where written
find_row-update_where p k g same [] = refl
find_row-update_where p k g same (x ∷ rows) = elim (Bool-cases (x.id == k)) [
  | inl reached ↦ rw reached (elim (Bool-cases (x.id == p)) [
    | inl there ↦
        let e : (k == p) ≡ true = ground arith in
        let new : ((g x).id == p) ≡ true = ap (λ n. n == p) (same x) ∙ there in
        rw (there, new, e) refl
    | inr other ↦
        let e : (k == p) ≡ false = ground arith in
        let new : ((g x).id == p) ≡ false = ap (λ n. n == p) (same x) ∙ other in
        rw (other, new) (find_row-update_where p k g same rows)
  ])
  | inr missed ↦ rw missed (elim (Bool-cases (x.id == p)) [
    | inl there ↦ let e : (k == p) ≡ false = ground arith in rw (there, e) refl
    | inr other ↦ rw other (find_row-update_where p k g same rows)
  ])
]

row_on_order-written :
    (b : Bool) (f : ℕ → ℕ) (o : Option Product)
    → is_some o ≡ true
    → row_on_order (written b (λ row. record row { on_order = f row.on_order }) o)
      ≡ (if b then f (row_on_order o) else row_on_order o)
unfolding row_on_order written
row_on_order-written b f none h = cc
row_on_order-written true f (some row) h = refl
row_on_order-written false f (some row) h = refl

is_some-written :
    (b : Bool) (g : Product → Product) (o : Option Product) → is_some (written b g o) ≡ is_some o
unfolding written
is_some-written b g none = refl
is_some-written true g (some row) = refl
is_some-written false g (some row) = refl

stock_kept :
    (b : Bool) (stock : ℕ) (o : Option Product)
    → row_on_order (written b (λ row. record row { current_stock = stock }) o) ≡ row_on_order o
unfolding row_on_order written
stock_kept b stock none = refl
stock_kept true stock (some row) = refl
stock_kept false stock (some row) = refl

-- The update of `on_order` writes the one product, which is in the table.
pub on_order_of-update_on_order :
    (p k : ℕ) (f : ℕ → ℕ) (w : Warehouse)
    → has_row k w ≡ true
    → on_order_of p (update_on_order k f w)
      ≡ (if k == p then f (on_order_of p w) else on_order_of p w)
unfolding on_order_of update_on_order has_row
on_order_of-update_on_order p k f w h = elim (Bool-cases (k == p)) [
  | inl same ↦
      let e : k ≡ p = ground arith in
      rw
        (find_row-update_where p k (λ row. record row { on_order = f row.on_order }) (λ row. refl)
          w.products)
        (row_on_order-written (k == p) f (find_row p w.products) (rw e at h))
  | inr other ↦
      rw
        (
          find_row-update_where p k (λ row. record row { on_order = f row.on_order }) (λ row. refl)
              w.products,
          other,
          written-false (λ row. record row { on_order = f row.on_order }) (find_row p w.products),
        )
        refl
]

pub has_row-update_on_order :
    (p k : ℕ) (f : ℕ → ℕ) (w : Warehouse) → has_row p (update_on_order k f w) ≡ has_row p w
unfolding has_row update_on_order
has_row-update_on_order p k f w =
    ap is_some (
      find_row-update_where p k (λ row. record row { on_order = f row.on_order }) (λ row. refl)
        w.products)
    ∙ is_some-written (k == p) _ (find_row p w.products)

-- The tables keep which products there are, and what is on order.
abbrev pub KeepsOnOrder : Warehouse → Warehouse → Type 0
KeepsOnOrder w w' = (p : ℕ) → (on_order_of p w' ≡ on_order_of p w) × (has_row p w' ≡ has_row p w)

put_stock-KeepsOnOrder :
    (k stock n : ℕ) (movements : List Movement) (w : Warehouse)
    → KeepsOnOrder w
        (record w { products = put_stock k stock w.products; movements = movements; next_id = n })
unfolding on_order_of has_row put_stock
put_stock-KeepsOnOrder k stock n movements w p =
    let reached =
      find_row-update_where p k (λ row. record row { current_stock = stock }) (λ row. refl)
        w.products in
    (
      ap row_on_order reached ∙ stock_kept (k == p) stock (find_row p w.products),
      ap is_some reached ∙ is_some-written (k == p) _ (find_row p w.products),
    )

insert_checked-KeepsOnOrder :
    (guard : Option Guard) (balance product_id : ℕ) (mtype : MovementType) (quantity : ℕ)
    (reference notes : Option String) (user_id : Option ℕ) (w : Warehouse)
    → KeepsOnOrder w (
        tables_after
          (insert_checked guard balance product_id mtype quantity reference notes user_id w)
          w)
unfolding insert_checked tables_after
insert_checked-KeepsOnOrder (some guard) balance product_id mtype quantity reference notes user_id w
      p =
    (refl, refl)
insert_checked-KeepsOnOrder none balance product_id mtype quantity reference notes user_id w p =
    put_stock-KeepsOnOrder product_id balance _ _ w p

-- A movement of stock leaves what is on order as it is.
pub sp_movement_record-KeepsOnOrder :
    (product_id : ℕ) (text : String) (quantity : ℕ) (reference notes : Option String)
    (user_id : Option ℕ) (w : Warehouse)
    → KeepsOnOrder w
        (tables_after (sp_movement_record product_id text quantity reference notes user_id w) w)
unfolding sp_movement_record record_found record_typed apply_delta tables_after
sp_movement_record-KeepsOnOrder product_id text quantity reference notes user_id w p =
    elim (Option-cases (find_product product_id w.products)) [
      | inl absent ↦ rw absent (refl, refl)
      | inr (row, found) ↦ rw found (elim (Option-cases (movement_type text)) [
        | inl unknown ↦ rw unknown (refl, refl)
        | inr (mtype, typed) ↦
            rw typed (elim (Option-cases (balance_after mtype row.current_stock quantity)) [
              | inl below ↦ rw below (refl, refl)
              | inr (balance, new) ↦ rw new (
                  insert_checked-KeepsOnOrder
                    (insert_guard balance product_id mtype quantity reference user_id w) balance
                    product_id mtype quantity reference notes user_id w p)
            ])
      ])
    ]

-- The update of an order changes the outstanding sum by the change of its share.
pub outstanding-update_order :
    (p k : ℕ) (f : Order → Order) (o : Order) (orders : List Order)
    → find_order k orders ≡ some o
    → outstanding p (update_order k f orders) + share p o ≡ outstanding p orders + share p (f o)
unfolding outstanding update_order find_order
outstanding-update_order p k f o [] h = cc
outstanding-update_order p k f o (x ∷ orders) h = elim (Bool-cases (x.id == k)) [
  | inl same ↦ let e : x ≡ o = cc (rw same at h) in rw (same, e) (omega arith)
  | inr other ↦ rw other (omega (arith, outstanding-update_order p k f o orders (rw other at h)))
]

pub share-outstanding :
    (p k : ℕ) (o : Order) (orders : List Order)
    → find_order k orders ≡ some o
    → share p o ≤ outstanding p orders
unfolding outstanding find_order
share-outstanding p k o [] h = cc
share-outstanding p k o (x ∷ orders) h = elim (Bool-cases (x.id == k)) [
  | inl same ↦ let e : x ≡ o = cc (rw same at h) in rw e (omega arith)
  | inr other ↦ omega (arith, share-outstanding p k o orders (rw other at h))
]

pub outstanding-append :
    (p : ℕ) (o : Order) (orders : List Order)
    → outstanding p (orders ++ o ∷ []) ≡ outstanding p orders + share p o
unfolding outstanding
outstanding-append p o [] = omega arith
outstanding-append p o (x ∷ orders) = omega (arith, outstanding-append p o orders)

pub All-update_order :
    (P : Order → Type 0) (k : ℕ) (f : Order → Order) (o : Order) (orders : List Order)
    → find_order k orders ≡ some o
    → P (f o)
    → All P orders
    → All P (update_order k f orders)
unfolding update_order find_order
All-update_order P k f o [] h q all = tt
All-update_order P k f o (x ∷ orders) h q all = elim (Bool-cases (x.id == k)) [
  | inl same ↦ let e : x ≡ o = cc (rw same at h) in rw (same, e) (q, all.1)
  | inr other ↦ rw other (all.0, All-update_order P k f o orders (rw other at h) q all.1)
]

pub All-find_order :
    (P : Order → Type 0) (k : ℕ) (o : Order) (orders : List Order)
    → find_order k orders ≡ some o
    → All P orders
    → P o
unfolding find_order
All-find_order P k o [] h all = cc
All-find_order P k o (x ∷ orders) h all = elim (Bool-cases (x.id == k)) [
  | inl same ↦ let e : x ≡ o = cc (rw same at h) in rw e at all.0
  | inr other ↦ All-find_order P k o orders (rw other at h) all.1
]

pub find_order-id :
    (k : ℕ) (o : Order) (orders : List Order) → find_order k orders ≡ some o → k ≡ o.id
unfolding find_order
find_order-id k o [] h = cc
find_order-id k o (x ∷ orders) h = elim (Bool-cases (x.id == k)) [
  | inl same ↦ let e : x ≡ o = cc (rw same at h) in rw (sym e) (ground arith)
  | inr other ↦ find_order-id k o orders (rw other at h)
]

pub update_order_absent :
    (k : ℕ) (f : Order → Order) (orders : List Order)
    → find_order k orders ≡ none
    → update_order k f orders ≡ orders
unfolding update_order find_order
update_order_absent k f [] h = refl
update_order_absent k f (x ∷ orders) h = elim (Bool-cases (x.id == k)) [
  | inl same ↦ cc (rw same at h)
  | inr other ↦
      rw other
        (ap (λ (rest : List Order). x ∷ rest) (update_order_absent k f orders (rw other at h)))
]
