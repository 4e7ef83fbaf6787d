-- ===== src/Etl/Facts/Rebuilt.antt =====
-- app/database/etl.py, `_build_movement_facts`: the table after a run, against the sums over the
-- movements themselves.
use inventory_logix_dashboar.Base.{
  ℕ, ◌≡◌, ◌≢◌, refl, inl, inr, String, true, false, not, Option, none, some, List, [], ◌∷◌, arith,
  ◌==◌, str_eq, if◌then◌else◌, Bool-cases, keep_if, any_of, All, All-append,
}
use inventory_logix_dashboar.Etl.Facts.{
  Movement, Product, DimProduct, DimWarehouse, Dims, Key, Fact, same_key, line, join_warehouses,
  join_products, join_movement, join_all, merge, add_line, group, has_key, in_days, is_counted,
  daily_facts, delete_days, build_movement_facts,
}
use inventory_logix_dashboar.Etl.Facts.Sums.{true_amount, amount-true_amount}
use inventory_logix_dashboar.Etl.Facts.Groups.{
  Column, amount, amount-group, amount-append, group-HasUniqueKeys, AreFresh, amount-insert_facts,
}

same_key_day : (a b : Key) → same_key a b ≡ true → a.date_key ≡ b.date_key
unfolding same_key
same_key_day a b h = ground arith

-- The rows of a day
abbrev IsOn : ℕ → Fact → Type 0
IsOn day f = f.key.date_key ≡ day

module _ (m : Movement) where
  join_warehouses-IsOn :
      (dp : DimProduct) (name : Option String) (dws : List DimWarehouse)
      → All (IsOn m.day) (join_warehouses m dp name dws)
  unfolding join_warehouses line
  join_warehouses-IsOn dp name [] = tt
  join_warehouses-IsOn dp none (dw ∷ dws) = tt
  join_warehouses-IsOn dp (some name) (dw ∷ dws) =
      elim (Bool-cases (str_eq dw.warehouse_name name)) [
        | inl same ↦ rw same (refl, join_warehouses-IsOn dp (some name) dws)
        | inr other ↦ rw other (join_warehouses-IsOn dp (some name) dws)
      ]

  join_products-IsOn :
      (p : Product) (dps : List DimProduct) (dws : List DimWarehouse)
      → All (IsOn m.day) (join_products m p dps dws)
  unfolding join_products
  join_products-IsOn p [] dws = tt
  join_products-IsOn p (dp ∷ dps) dws = elim (Bool-cases (str_eq dp.sku p.sku)) [
    | inl same ↦ rw same (
        All-append (IsOn m.day) (join_warehouses m dp p.warehouse dws) (join_products m p dps dws)
          (join_warehouses-IsOn dp p.warehouse dws) (join_products-IsOn p dps dws))
    | inr other ↦ rw other (join_products-IsOn p dps dws)
  ]

  join_movement-IsOn :
      (ps : List Product) (dims : Dims) → All (IsOn m.day) (join_movement m ps dims)
  unfolding join_movement
  join_movement-IsOn [] dims = tt
  join_movement-IsOn (p ∷ ps) dims = elim (Bool-cases (p.id == m.product_id)) [
    | inl same ↦ rw same (
        All-append (IsOn m.day) (join_products m p dims.dim_products dims.dim_warehouses)
          (join_movement m ps dims) (join_products-IsOn p dims.dim_products dims.dim_warehouses)
          (join_movement-IsOn ps dims))
    | inr other ↦ rw other (join_movement-IsOn ps dims)
  ]

amount_off :
    (c : Column) (k : Key) (day : ℕ) (facts : List Fact)
    → All (IsOn day) facts
    → day ≢ k.date_key
    → amount c k facts ≡ 0
unfolding amount
amount_off c k day [] h ne = refl
amount_off c k day (f ∷ facts) h ne =
    ground (arith, same_key_day f.key k, amount_off c k day facts h.1 ne)

amount-delete_days :
    (c : Column) (k : Key) (start end : ℕ) (facts : List Fact)
    → amount c k (delete_days start end facts)
      ≡ (if in_days start end k.date_key then 0 else amount c k facts)
unfolding amount delete_days keep_if in_days
amount-delete_days c k start end [] = ground arith
amount-delete_days c k start end (f ∷ facts) =
    ground (arith, same_key_day f.key k, amount-delete_days c k start end facts)

has_key-delete_days :
    (k : Key) (start end : ℕ) (facts : List Fact)
    → in_days start end k.date_key ≡ true
    → has_key k (delete_days start end facts) ≡ false
unfolding has_key any_of delete_days keep_if in_days
has_key-delete_days k start end [] h = refl
has_key-delete_days k start end (f ∷ facts) h =
    ground (arith, same_key_day k f.key, has_key-delete_days k start end facts)

-- The rows whose day is in the window
abbrev IsInside : ℕ → ℕ → Fact → Type 0
IsInside start end f = in_days start end f.key.date_key ≡ true

module _ (start end : ℕ) where
  IsOn-IsInside :
      (day : ℕ) (facts : List Fact)
      → in_days start end day ≡ true
      → All (IsOn day) facts
      → All (IsInside start end) facts
  IsOn-IsInside day [] inside h = tt
  IsOn-IsInside day (f ∷ facts) inside h = (rw h.0 inside, IsOn-IsInside day facts inside h.1)

  counted_inside : (m : Movement) → is_counted start end m ≡ true → in_days start end m.day ≡ true
  unfolding is_counted
  counted_inside m h = ground arith

  join_all-IsInside :
      (dims : Dims) (ms : List Movement)
      → All (IsInside start end) (join_all dims (keep_if (is_counted start end) ms))
  unfolding join_all keep_if
  join_all-IsInside dims [] = tt
  join_all-IsInside dims (m ∷ ms) = elim (Bool-cases (is_counted start end m)) [
    | inl on ↦ rw on (
        All-append (IsInside start end) (join_movement m dims.products dims)
          (join_all dims (keep_if (is_counted start end) ms))
          (IsOn-IsInside m.day (join_movement m dims.products dims) (counted_inside m on)
            (join_movement-IsOn m dims.products dims))
          (join_all-IsInside dims ms))
    | inr off ↦ rw off (join_all-IsInside dims ms)
  ]

  add_line-IsInside :
      (l : Fact) (facts : List Fact)
      → IsInside start end l
      → All (IsInside start end) facts
      → All (IsInside start end) (add_line l facts)
  unfolding add_line merge
  add_line-IsInside l [] inside h = (inside, tt)
  add_line-IsInside l (f ∷ facts) inside h = ground (arith, add_line-IsInside l facts inside h.1)

  group-IsInside :
      (lines : List Fact) → All (IsInside start end) lines → All (IsInside start end) (group lines)
  unfolding group
  group-IsInside [] h = tt
  group-IsInside (l ∷ lines) h = add_line-IsInside l (group lines) h.0 (group-IsInside lines h.1)

  delete_days-AreFresh :
      (rows facts : List Fact)
      → All (IsInside start end) rows
      → AreFresh rows (delete_days start end facts)
  delete_days-AreFresh [] facts h = tt
  delete_days-AreFresh (f ∷ rows) facts h =
      (has_key-delete_days f.key start end facts h.0, delete_days-AreFresh rows facts h.1)

  -- The selected movements have, at a key of the window, what all the live ones have there.
  amount-join_all :
      (c : Column) (k : Key) (dims : Dims) (ms : List Movement)
      → amount c k (join_all dims (keep_if (is_counted start end) ms)) ≡ (
          if in_days start end k.date_key
          then amount c k (join_all dims (keep_if (λ (m : Movement). not m.is_deleted) ms))
          else 0)
  unfolding join_all keep_if amount is_counted
  amount-join_all c k dims [] = ground arith
  amount-join_all c k dims (m ∷ ms) = ground (
    arith,
    amount-append c k (join_movement m dims.products dims)
        (join_all dims (keep_if (is_counted start end) ms)),
    amount-append c k (join_movement m dims.products dims)
        (join_all dims (keep_if (λ (m : Movement). not m.is_deleted) ms)),
    amount_off c k m.day (join_movement m dims.products dims)
        (join_movement-IsOn m dims.products dims),
    amount-join_all c k dims ms,
  )

-- After `_build_movement_facts` the quantity and value columns at every key of the window are the sums,
-- by type and with the price of the dimension, over all the movements that are not deleted, whatever
-- stood there; outside the window nothing has changed.
pub amount-build_movement_facts :
    (c : Column) (k : Key) (start end : ℕ) (dims : Dims) (movements : List Movement)
    (facts : List Fact)
    → amount c k (build_movement_facts start end dims movements facts).0
      ≡ (if in_days start end k.date_key then true_amount c k dims movements else amount c k facts)
unfolding build_movement_facts daily_facts
amount-build_movement_facts c k start end dims movements facts =
    let lines = join_all dims (keep_if (is_counted start end) movements) in
    ground (
      arith,
      amount-insert_facts c k (group lines) (delete_days start end facts)
          (group-HasUniqueKeys lines)
          (delete_days-AreFresh start end (group lines) facts
            (group-IsInside start end lines (join_all-IsInside start end dims movements))),
      amount-delete_days c k start end facts,
      amount-group c k lines,
      amount-join_all start end c k dims movements,
      amount-true_amount c k dims movements,
    )
