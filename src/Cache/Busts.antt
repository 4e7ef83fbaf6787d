-- ===== src/Cache/Busts.antt =====
-- The named caches of app/utils/cache.py and the invalidations that follow a write.
use inventory_logix_dashboar.Base.{
  ℕ, ◌+◌, String, ◌≡◌, refl, true, false, none, arith, if◌then◌else◌,
}
use text.Mathlib.Text.{starts_with}
use Prim.Native.String.append
use text.Mathlib.TextPositions.{starts_with_of_prefix}
use inventory_logix_dashboar.Cache.{TtlCache, get, new, invalidate}
use inventory_logix_dashboar.Cache.Lookup.{lookup-invalidate}

-- One cache for each concern. The values of the program's caches are of many types; `V` is their sum.
pub record Caches {ℓ} (V : Type ℓ) : Type ℓ where
  pub products : TtlCache V
  pub suppliers : TtlCache V
  pub dashboard : TtlCache V
  pub reports : TtlCache V
  pub global : TtlCache V
  pub api : TtlCache V
  pub landing : TtlCache V
  pub monitoring : TtlCache V

starts_with_empty : (s : String) → starts_with s "" ≡ true
starts_with_empty s = starts_with_of_prefix "" s (s, append.nil s)

module _ {ℓ} {V : Type ℓ} where
  unfoldable pub named_caches : Caches V
  named_caches = record {
    products = new 300 100;
    suppliers = new 300 100;
    dashboard = new 600 20;
    reports = new 7200 50;
    global = new 600 20;
    api = new 120 100;
    landing = new 600 10;
    monitoring = new 60 10;
  }

  unfoldable pub cache_bust_products : Caches V → ℕ × Caches V
  cache_bust_products cs =
      let (n1, products) = invalidate "" cs.products in
      let (n2, dashboard) = invalidate "dashboard:" cs.dashboard in
      let (n3, reports) = invalidate "" cs.reports in
      let (n4, global) = invalidate "" cs.global in
      let (n5, api) = invalidate "product" cs.api in
      let (n6, landing) = invalidate "" cs.landing in
      (
        n1 + n2 + n3 + n4 + n5 + n6,
        record cs {
          products = products;
          dashboard = dashboard;
          reports = reports;
          global = global;
          api = api;
          landing = landing;
        },
      )

  unfoldable pub cache_bust_suppliers : Caches V → ℕ × Caches V
  cache_bust_suppliers cs =
      let (n1, suppliers) = invalidate "" cs.suppliers in
      let (n2, reports) = invalidate "reports:" cs.reports in
      let (n3, api) = invalidate "suppliers" cs.api in
      let (n4, landing) = invalidate "" cs.landing in
      (
        n1 + n2 + n3 + n4,
        record cs { suppliers = suppliers; reports = reports; api = api; landing = landing },
      )

  unfoldable pub cache_bust_movements : Caches V → ℕ × Caches V
  cache_bust_movements cs =
      let (n1, products) = invalidate "" cs.products in
      let (n2, dashboard) = invalidate "dashboard:" cs.dashboard in
      let (n3, reports) = invalidate "reports:" cs.reports in
      let (n4, global) = invalidate "" cs.global in
      let (n5, api) = invalidate "movements" cs.api in
      (
        n1 + n2 + n3 + n4 + n5,
        record cs {
          products = products;
          dashboard = dashboard;
          reports = reports;
          global = global;
          api = api;
        },
      )

  unfoldable pub cache_bust_purchase_orders : Caches V → ℕ × Caches V
  cache_bust_purchase_orders cs =
      let (n1, products) = invalidate "" cs.products in
      let (n2, dashboard) = invalidate "dashboard:" cs.dashboard in
      let (n3, reports) = invalidate "reports:" cs.reports in
      let (n4, global) = invalidate "" cs.global in
      let (n5, api) = invalidate "purchase_orders" cs.api in
      let (n6, api') = invalidate "purchase_orders:board" api in
      (
        n1 + n2 + n3 + n4 + n5 + n6,
        record cs {
          products = products;
          dashboard = dashboard;
          reports = reports;
          global = global;
          api = api';
        },
      )

  unfoldable pub cache_bust_settings : Caches V → ℕ × Caches V
  cache_bust_settings cs =
      let (n1, global) = invalidate "" cs.global in
      let (n2, api) = invalidate "settings" cs.api in
      (n1 + n2, record cs { global = global; api = api })

  unfoldable pub cache_bust_all : Caches V → ℕ × Caches V
  cache_bust_all cs =
      let (n1, products) = invalidate "" cs.products in
      let (n2, suppliers) = invalidate "" cs.suppliers in
      let (n3, dashboard) = invalidate "" cs.dashboard in
      let (n4, reports) = invalidate "" cs.reports in
      let (n5, global) = invalidate "" cs.global in
      let (n6, api) = invalidate "" cs.api in
      let (n7, landing) = invalidate "" cs.landing in
      let (n8, monitoring) = invalidate "" cs.monitoring in
      (
        n1 + n2 + n3 + n4 + n5 + n6 + n7 + n8,
        record {
          products = products;
          suppliers = suppliers;
          dashboard = dashboard;
          reports = reports;
          global = global;
          api = api;
          landing = landing;
          monitoring = monitoring;
        },
      )

  -- What `get` returns after an invalidation.
  pub get-invalidate :
      (prefix k : String) (now : ℕ) (c : TtlCache V)
      → (get k now (invalidate prefix c).1).0
        ≡ (if starts_with k prefix then none else (get k now c).0)
  unfolding get
  get-invalidate prefix k now c = rw ((lookup-invalidate prefix k c).0) (ground arith)

  pub get-invalidate_all :
      (k : String) (now : ℕ) (c : TtlCache V) → (get k now (invalidate "" c).1).0 ≡ none
  get-invalidate_all k now c = rw (get-invalidate, starts_with_empty k)

  -- After a movement no product list and no cross-request value is served from its cache; of the
  -- dashboard, report and API caches exactly the keys under "dashboard:", "reports:" and "movements"
  -- are gone, all else is served as before; suppliers, landing page and monitoring are untouched.
  pub cache_bust_movements_fresh :
      (cs : Caches V) (k : String) (now : ℕ)
      → let after = (cache_bust_movements cs).1 in
        ((get k now after.products).0 ≡ none)
        × ((get k now after.global).0 ≡ none)
        × ((get k now after.dashboard).0
            ≡ (if starts_with k "dashboard:" then none else (get k now cs.dashboard).0))
        × ((get k now after.reports).0
            ≡ (if starts_with k "reports:" then none else (get k now cs.reports).0))
        × ((get k now after.api).0
            ≡ (if starts_with k "movements" then none else (get k now cs.api).0))
        × (after.suppliers ≡ cs.suppliers)
        × (after.landing ≡ cs.landing)
        × (after.monitoring ≡ cs.monitoring)
  unfolding cache_bust_movements
  cache_bust_movements_fresh cs k now = (
    get-invalidate_all k now cs.products,
    get-invalidate_all k now cs.global,
    get-invalidate "dashboard:" k now cs.dashboard,
    get-invalidate "reports:" k now cs.reports,
    get-invalidate "movements" k now cs.api,
    refl,
    refl,
    refl,
  )

  -- Whatever the API cache serves under a key that does not begin with "movements", it still serves
  -- after a movement: the answers of the product routes, under "product:" and "products:", stay.
  pub cache_bust_movements_keeps_api :
      (cs : Caches V) (k : String) (now : ℕ)
      → starts_with k "movements" ≡ false
      → (get k now (cache_bust_movements cs).1.api).0 ≡ (get k now cs.api).0
  unfolding cache_bust_movements
  cache_bust_movements_keeps_api cs k now h = rw (get-invalidate, h)

  -- After a product write no product list, report, cross-request value or landing statistic is
  -- served from its cache; of the dashboard and API caches exactly the keys under "dashboard:" and
  -- "product" are gone; suppliers and monitoring are untouched.
  pub cache_bust_products_fresh :
      (cs : Caches V) (k : String) (now : ℕ)
      → let after = (cache_bust_products cs).1 in
        ((get k now after.products).0 ≡ none)
        × ((get k now after.reports).0 ≡ none)
        × ((get k now after.global).0 ≡ none)
        × ((get k now after.landing).0 ≡ none)
        × ((get k now after.dashboard).0
            ≡ (if starts_with k "dashboard:" then none else (get k now cs.dashboard).0))
        × ((get k now after.api).0
            ≡ (if starts_with k "product" then none else (get k now cs.api).0))
        × (after.suppliers ≡ cs.suppliers)
        × (after.monitoring ≡ cs.monitoring)
  unfolding cache_bust_products
  cache_bust_products_fresh cs k now = (
    get-invalidate_all k now cs.products,
    get-invalidate_all k now cs.reports,
    get-invalidate_all k now cs.global,
    get-invalidate_all k now cs.landing,
    get-invalidate "dashboard:" k now cs.dashboard,
    get-invalidate "product" k now cs.api,
    refl,
    refl,
  )

  -- After a bust of everything no cache serves anything.
  pub cache_bust_all_fresh :
      (cs : Caches V) (k : String) (now : ℕ)
      → let after = (cache_bust_all cs).1 in
        ((get k now after.products).0 ≡ none)
        × ((get k now after.suppliers).0 ≡ none)
        × ((get k now after.dashboard).0 ≡ none)
        × ((get k now after.reports).0 ≡ none)
        × ((get k now after.global).0 ≡ none)
        × ((get k now after.api).0 ≡ none)
        × ((get k now after.landing).0 ≡ none)
        × ((get k now after.monitoring).0 ≡ none)
  unfolding cache_bust_all
  cache_bust_all_fresh cs k now = (
    get-invalidate_all k now cs.products,
    get-invalidate_all k now cs.suppliers,
    get-invalidate_all k now cs.dashboard,
    get-invalidate_all k now cs.reports,
    get-invalidate_all k now cs.global,
    get-invalidate_all k now cs.api,
    get-invalidate_all k now cs.landing,
    get-invalidate_all k now cs.monitoring,
  )
