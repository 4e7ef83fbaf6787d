-- ===== src/Orders/Steps.antt =====
-- The procedures on purchase orders keep the tables sound, in any order.
use inventory_logix_dashboar.Base.{
  ℕ, ◌+◌, ◌-◌, String, ◌≡◌, refl, sym, ap, ◌∙◌, Bool, true, false, Option, none, some, arith,
  if◌then◌else◌, Bool-cases, inl, inr,
}
use inventory_logix_dashboar.Stock.{Warehouse, Outcome}
use inventory_logix_dashboar.Orders.{
  PoStatus, draft, approved, in_transit, received, cancelled, same_status, is_open, is_allowed,
  Order, OrderDb, PoGuard, find_order, update_on_order, set_status, apply_transition,
  transition_found, sp_po_transition,
}
use inventory_logix_dashboar.Orders.OnOrder.{
  on_order_of, has_row, share, on_order_of-update_on_order, has_row-update_on_order,
  share-outstanding, All-find_order, find_order-id,
}
use inventory_logix_dashboar.Orders.Sound.{
  db_after, IsFine, IsSound, rewritten-IsSound, approved_change, cancelled_change,
}
use inventory_logix_dashboar.Orders.Receiving.{receive_order-IsSound}

-- What each transition says of the status that it leaves.
draft_closed : (s : PoStatus) → same_status s draft ≡ true → is_open s ≡ false
draft_closed draft h = refl
draft_closed approved h = cc
draft_closed in_transit h = cc
draft_closed received h = cc
draft_closed cancelled h = cc

approved_from : (s : PoStatus) → is_allowed s approved ≡ true → same_status s draft ≡ true
approved_from draft h = refl
approved_from approved h = cc
approved_from in_transit h = cc
approved_from received h = cc
approved_from cancelled h = cc

received_from : (s : PoStatus) → is_allowed s received ≡ true → is_open s ≡ true
received_from draft h = cc
received_from approved h = cc
received_from in_transit h = refl
received_from received h = cc
received_from cancelled h = cc

in_transit_from : (s : PoStatus) → is_allowed s in_transit ≡ true → is_open s ≡ true
in_transit_from draft h = cc
in_transit_from approved h = refl
in_transit_from in_transit h = cc
in_transit_from received h = cc
in_transit_from cancelled h = cc

never_draft : (s : PoStatus) → is_allowed s draft ≡ false
never_draft draft = refl
never_draft approved = refl
never_draft in_transit = refl
never_draft received = refl
never_draft cancelled = refl

-- A draft is not open, and has received nothing.
draft_fresh :
    (o : Order) (w : Warehouse)
    → same_status o.status draft ≡ true
    → IsFine w o
    → (is_open o.status ≡ false) × (o.received_quantity ≡ 0)
draft_fresh o w isdraft h =
    (draft_closed o.status isdraft, elim h.1.0 [ inl other ↦ cc | inr e ↦ e ])

closed_share :
    (n p : ℕ) (o : Order)
    → is_open o.status ≡ false
    → n + share p o ≡ n + share p (record o { status = cancelled })
unfolding share
closed_share n p o closed = ground (arith, closed)

moved_share :
    (n p : ℕ) (o : Order)
    → is_open o.status ≡ true
    → n + share p o ≡ n + share p (record o { status = in_transit })
unfolding share
moved_share n p o opened = ground (arith, opened)

apply_transition-IsSound :
    (status : PoStatus) (user_exists : ℕ → Bool) (o : Order) (amount received_by : Option ℕ)
    (notes location : String) (key : Option String) (db : OrderDb)
    → find_order o.id db.orders ≡ some o
    → is_allowed o.status status ≡ true
    → IsSound db
    → IsSound (
        db_after
          (apply_transition status user_exists o amount received_by notes location key db)
          db)
unfolding apply_transition set_status db_after
apply_transition-IsSound approved user_exists o amount received_by notes location key db found ok
      h =
    let old = All-find_order (IsFine db.warehouse) o.id o db.orders found h.fine in
    let fresh = draft_fresh o db.warehouse (approved_from o.status ok) old in
    rewritten-IsSound o.id _ o (update_on_order o.product_id (λ n. n + o.quantity) db.warehouse) db
      found old.0 (inl refl) refl
      (λ p. has_row-update_on_order p o.product_id (λ n. n + o.quantity) db.warehouse)
      (λ p. approved_change p o db.warehouse old.1.1 fresh.0 fresh.1) h
apply_transition-IsSound received user_exists o amount received_by notes location key db found ok
      h =
    receive_order-IsSound user_exists o amount received_by notes location key db found
      (received_from o.status ok) h
apply_transition-IsSound cancelled user_exists o amount received_by notes location key db found ok
      h =
    let old = All-find_order (IsFine db.warehouse) o.id o db.orders found h.fine in
    elim (Bool-cases (is_open o.status)) [
      | inl opened ↦ rw opened (
          rewritten-IsSound o.id _ o
            (update_on_order o.product_id (λ n. n - (o.quantity - o.received_quantity))
              db.warehouse)
            db found old.0 (inl refl) refl
            (λ p. has_row-update_on_order p o.product_id _ db.warehouse)
            (λ p.
              cancelled_change p o db.warehouse old.1.1 opened
                (rw (h.counted p) (share-outstanding p o.id o db.orders found)))
            h)
      | inr closed ↦ rw closed (
          rewritten-IsSound o.id _ o db.warehouse db found old.0 (inl refl) refl (λ p. refl)
            (λ p. closed_share _ p o closed) h)
    ]
apply_transition-IsSound in_transit user_exists o amount received_by notes location key db found ok
      h =
    let old = All-find_order (IsFine db.warehouse) o.id o db.orders found h.fine in
    rewritten-IsSound o.id _ o db.warehouse db found old.0 (inl refl) refl (λ p. refl)
      (λ p. moved_share _ p o (in_transit_from o.status ok)) h
apply_transition-IsSound draft user_exists o amount received_by notes location key db found ok h =
    cc (never_draft o.status, ok)

either-IsSound :
    (b : Bool) (x y : Outcome PoGuard OrderDb) (db : OrderDb)
    → IsSound (db_after x db)
    → IsSound (db_after y db)
    → IsSound (db_after (if b then x else y) db)
either-IsSound true x y db h k = h
either-IsSound false x y db h k = k

transition_found-IsSound :
    (found : Option Order) (po_id : ℕ) (user_exists : ℕ → Bool) (status : PoStatus)
    (amount received_by : Option ℕ) (notes location : String) (key : Option String) (db : OrderDb)
    → find_order po_id db.orders ≡ found
    → IsSound db
    → IsSound (
        db_after
          (transition_found found po_id user_exists status amount received_by notes location key db)
          db)
unfolding transition_found db_after
transition_found-IsSound none po_id user_exists status amount received_by notes location key db e
      h =
    h
transition_found-IsSound (some o) po_id user_exists status amount received_by notes location key db
      e h =
    either-IsSound o.is_deleted _ _ db h (
      either-IsSound (same_status o.status status) _ _ db h
        (elim (Bool-cases (is_allowed o.status status)) [
          | inl ok ↦ rw ok (
              apply_transition-IsSound status user_exists o amount received_by notes location key db
                (ap (λ n. find_order n db.orders) (sym (find_order-id po_id o db.orders e)) ∙ e) ok
                h)
          | inr bad ↦ rw bad h
        ]))

-- A transition of an order, whether it commits or raises, keeps the tables sound.
pub sp_po_transition-IsSound :
    (user_exists : ℕ → Bool) (po_id : ℕ) (status : PoStatus) (amount received_by : Option ℕ)
    (notes location : String) (key : Option String) (db : OrderDb)
    → IsSound db
    → IsSound (
        db_after
          (sp_po_transition user_exists po_id status amount received_by notes location key db)
          db)
unfolding sp_po_transition
sp_po_transition-IsSound user_exists po_id status amount received_by notes location key db h =
    transition_found-IsSound (find_order po_id db.orders) po_id user_exists status amount
      received_by notes location key db refl h

pub create_share :
    (p quantity : ℕ) (status : PoStatus) (product_id : ℕ) (w : Warehouse) (o : Order)
    → has_row product_id w ≡ true
    → o.product_id ≡ product_id
    → o.quantity ≡ quantity
    → o.received_quantity ≡ 0
    → o.status ≡ status
    → on_order_of p (if is_open status then update_on_order product_id (λ n. n + quantity) w else w)
      ≡ on_order_of p w + share p o
unfolding share
create_share p quantity status product_id w o row a b c d = elim (Bool-cases (is_open status)) [
  | inl opened ↦
      rw
        (
          opened,
          a,
          b,
          c,
          d,
          opened,
          on_order_of-update_on_order p product_id (λ n. n + quantity) w row,
        )
        (ground arith)
  | inr closed ↦ rw (closed, a, b, c, d, closed) (ground arith)
]
