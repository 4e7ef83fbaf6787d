-- ===== src/Etl/Run/Watermark.antt =====
-- app/database/etl.py, `run_etl`: whatever fails, the watermark never runs ahead of the facts.
use inventory_logix_dashboar.Base.{
  Bool-cases, ℕ, ◌≡◌, refl, sym, ◌∙◌, ap, ◌⊎◌, inl, inr, String, Bool, false, Option, none, some,
  List, arith, if◌then◌else◌,
}
use mathlib.Core.Path.{subst}
use inventory_logix_dashboar.JobQueue.{Outcome, returned, raised}
use inventory_logix_dashboar.Etl.{watermark}
use inventory_logix_dashboar.Etl.Retry.{watermark-write_state}
use inventory_logix_dashboar.Etl.Codes.{NewWarehouse}
use inventory_logix_dashboar.Etl.Facts.{DimWarehouse, Key, in_days, build_movement_facts}
use inventory_logix_dashboar.Etl.Facts.Groups.{Column, amount}
use inventory_logix_dashboar.Etl.Facts.Sums.{true_amount}
use inventory_logix_dashboar.Etl.Facts.Rebuilt.{amount-build_movement_facts}
use inventory_logix_dashboar.Etl.Dims.{
  Tables, DimCounts, warehouse_rows, insert_warehouses, build_others, build_dims, repeats_sku,
  new_products,
}
use inventory_logix_dashboar.Etl.Dims.Inventory.{build_inventory_facts}
use inventory_logix_dashboar.Etl.Session.{World}
use inventory_logix_dashboar.Etl.Run.{
  Summary, dates_op, movements_op, inventory_op, run_stages, max_id,
}
use inventory_logix_dashboar.Etl.Run.Stages.{marked, stage_then}

others_keep :
    (rows : List NewWarehouse) (t u : Tables) (dws : Option (List DimWarehouse))
    (counts : DimCounts)
    → build_others rows t dws ≡ returned (counts, u)
    → u.movements ≡ t.movements
unfolding build_others
others_keep rows t u none counts h = cc
others_keep rows t u (some dws) counts h =
    elim (Bool-cases
      (repeats_sku (new_products t.next_product_key t.dims.dim_products t.dims.products))) [
        | inl twice ↦ cc (rw twice at h)
        | inr once ↦ cc (rw once at h)
      ]

dims_keep :
    (order_by : List String → List String) (t u : Tables) (counts : DimCounts)
    → build_dims order_by t ≡ returned (counts, u)
    → u.movements ≡ t.movements
unfolding build_dims
dims_keep order_by t u counts h =
    let rows = warehouse_rows order_by t.dims in
    others_keep rows t u (insert_warehouses t.next_warehouse_key rows t.dims.dim_warehouses) counts
      h

-- The watermark of the tables
abbrev pub mark : Tables → ℕ
mark t = watermark t.etl_state

mark-marked : (id : ℕ) (t : Tables) → mark (marked id t) ≡ id
mark-marked id t = watermark-write_state id t.etl_state

module _ (c : Column) (k : Key) where
  -- At the key, if its day is in the window, the facts are the sums over the movements.
  abbrev pub IsCurrent : ℕ → ℕ → Tables → Type 0
  IsCurrent start end t =
      (if in_days start end k.date_key then amount c k t.facts else 0)
      ≡ (if in_days start end k.date_key then true_amount c k t.dims t.movements else 0)

  -- The watermark says that all movements are in, and at the key they are.
  abbrev pub IsLoaded : ℕ → ℕ → Tables → Type 0
  IsLoaded start end t = (mark t ≡ max_id t.movements) × IsCurrent start end t

  movements_op-IsCurrent :
      (start end rows : ℕ) (t u : Tables)
      → movements_op start end t ≡ returned (rows, u)
      → (u.movements ≡ t.movements) × IsCurrent start end u
  unfolding movements_op
  movements_op-IsCurrent start end rows t u h =
      let same : record t { facts = (build_movement_facts start end t.dims t.movements t.facts).0 }
          ≡ u =
        cc in
      subst (λ (x : Tables). (x.movements ≡ t.movements) × IsCurrent start end x) same
        (refl, ground (arith, amount-build_movement_facts c k start end t.dims t.movements t.facts))

  -- How the stages end: an exception leaves the watermark where it was or where they hold it; else
  -- all is loaded.
  abbrev pub Safe : ℕ → ℕ → ℕ → ℕ → Outcome Summary × World → Type 0
  Safe old low start end (raised e, v) = (mark v.committed ≡ old) ⊎ (mark v.committed ≡ low)
  Safe old low start end (returned s, v) =
      (s.skipped ≡ false) × IsLoaded start end v.committed × (v.working ≡ v.committed)

  held : (low : ℕ) (t : Tables) (v : World) → v.committed ≡ marked low t → mark v.committed ≡ low
  held low t v e = ap mark e ∙ mark-marked low t

  -- What is current stays so when the tables are stored with a watermark.
  IsCurrent-marked :
      (start end id : ℕ) (t u : Tables)
      → u ≡ marked id t
      → IsCurrent start end t
      → IsCurrent start end u
  IsCurrent-marked start end id t u e h = subst (λ (x : Tables). IsCurrent start end x) (sym e) h

  pub inventory_op-keeps :
      (start end rows : ℕ) (t u : Tables)
      → inventory_op start end t ≡ returned (rows, u)
      → (u.movements ≡ t.movements) × (u.dims ≡ t.dims) × (u.facts ≡ t.facts)
  unfolding inventory_op build_inventory_facts
  inventory_op-keeps start end rows t u h = (cc, cc, cc)

  dates_op-keeps :
      (start end rows : ℕ) (t u : Tables)
      → dates_op start end t ≡ returned (rows, u)
      → u.movements ≡ t.movements
  unfolding dates_op
  dates_op-keeps start end rows t u h = cc

  IsCurrent-moved :
      (start end : ℕ) (t u : Tables)
      → u.movements ≡ t.movements
      → u.dims ≡ t.dims
      → u.facts ≡ t.facts
      → IsCurrent start end t
      → IsCurrent start end u
  IsCurrent-moved start end t u p q r h = cc

  -- What a stage stores is what the next one reads, but for the watermark.
  stored :
      (id : ℕ) (t : Tables) (v : World)
      → v.committed ≡ marked id t
      → v.working ≡ v.committed
      → (v.working.movements ≡ t.movements)
        × (v.working.dims ≡ t.dims)
        × (v.working.facts ≡ t.facts)
  stored id t v s c =
      let e : v.working ≡ marked id t = c ∙ s in
      (
        ap (λ (x : Tables). x.movements) e,
        ap (λ (x : Tables). x.dims) e,
        ap (λ (x : Tables). x.facts) e,
      )

  -- The last two stages, for tables that are read from the open transaction
  facts_end :
      (start end is ie high moved stocked : ℕ) (t3 t4 : Tables) (w v3 v4 : World)
      → high ≡ max_id w.working.movements
      → movements_op start end w.working ≡ returned (moved, t3)
      → (v3.working.movements ≡ t3.movements)
        × (v3.working.dims ≡ t3.dims)
        × (v3.working.facts ≡ t3.facts)
      → inventory_op is ie v3.working ≡ returned (stocked, t4)
      → v4.committed ≡ marked high t4
      → IsLoaded start end v4.committed
  facts_end start end is ie high moved stocked t3 t4 w v3 v4 h d3 f3 d4 s4 =
      let (m3, current) = movements_op-IsCurrent start end moved w.working t3 d3 in
      let (m4, q4, r4) = inventory_op-keeps is ie stocked v3.working t4 d4 in
      let all : high ≡ max_id t4.movements = h ∙ ap max_id (sym (m4 ∙ f3.0 ∙ m3)) in
      subst (IsLoaded start end) (sym s4) (
        mark-marked high t4 ∙ all,
        IsCurrent-moved start end t3 (marked high t4) (m4 ∙ f3.0) (q4 ∙ f3.1) (r4 ∙ f3.2) current,
      )

  pub run_stages-Safe :
      (order_by : List String → List String) (inc : Bool) (start end is ie low high : ℕ) (w : World)
      → high ≡ max_id w.working.movements
      → Safe (mark w.committed) low start end (run_stages order_by inc start end is ie low high w)
  unfolding run_stages
  run_stages-Safe order_by inc start end is ie low high w h =
      let Q = Safe (mark w.committed) low start end in
      stage_then (dates_op start end) low w _ Q (λ e v c. inl (ap mark c))
        λ dates t1 v1 d1 s1 c1.
          stage_then (build_dims order_by) low v1 _ Q (λ e v c. inr (ap mark c ∙ held low t1 v1 s1))
            λ counts t2 v2 d2 s2 c2.
              stage_then (movements_op start end) low v2 _ Q
                (λ e v c. inr (ap mark c ∙ held low t2 v2 s2))
                λ moved t3 v3 d3 s3 c3.
                  stage_then (inventory_op is ie) high v3 _ Q
                    (λ e v c. inr (ap mark c ∙ held low t3 v3 s3))
                    λ stocked t4 v4 d4 s4 c4. (
                      refl,
                      facts_end start end is ie high moved stocked t3 t4 v2 v3 v4
                          (h
                            ∙ ap max_id (
                                sym (
                                  (stored low t2 v2 s2 c2).0
                                  ∙ dims_keep order_by v1.working t2 counts d2
                                  ∙ (stored low t1 v1 s1 c1).0
                                  ∙ dates_op-keeps start end dates w.working t1 d1)))
                          d3 (stored low t3 v3 s3 c3) d4 s4,
                      c4,
                    )
