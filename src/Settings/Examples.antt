-- ===== src/Settings/Examples.antt =====
-- Instances of the theorems on one user's settings.
use inventory_logix_dashboar.Base.{
  ℕ, ◌≤◌, ◌≡◌, refl, String, true, none, some, [], ◌∷◌, ◌==◌, ◌&&◌, if◌then◌else◌,
}
use inventory_logix_dashboar.Base.Int.{pos}
use inventory_logix_dashboar.Base.Decimal.{int_of}
use inventory_logix_dashboar.Base.Dict.{OrderedDict, lookup, IsUnique, or_else}
use inventory_logix_dashboar.Cache.{new}
use inventory_logix_dashboar.Settings.{
  SettingsState, defaults, is_known, validate, get_settings, save_settings, bust,
}
use inventory_logix_dashboar.Settings.Merge.{validated}
use inventory_logix_dashboar.Settings.Saved.{get_settings-save_settings, validate_bounds}

abbrev values : OrderedDict String
values = ("low_stock_threshold", " 250 ") ∷ ("theme", "blue") ∷ []

abbrev st : SettingsState
st = record { table = λ id. ("live_data", "off") ∷ []; global_cache = new 600 20 }

values-IsUnique : IsUnique values
unfolding lookup
values-IsUnique = (refl, (refl, tt))

row-IsUnique : IsUnique (st.table 7)
unfolding lookup
row-IsUnique = (refl, tt)

low_known : is_known "low_stock_threshold" ≡ true
unfolding is_known lookup
low_known = refl

get_settings-save_settings_example :
    lookup "low_stock_threshold"
      (get_settings none
        (some 7)
        50
        true
        (bust (save_settings none (some 7) 40 true true values st).1)).0
    ≡ (if true
        then or_else
            (if true && 7 == 7
              then validated "low_stock_threshold" (lookup "low_stock_threshold" values)
              else none)
            (or_else
              (lookup "low_stock_threshold" (st.table 7))
              (lookup "low_stock_threshold" defaults))
        else lookup "low_stock_threshold" defaults)
get_settings-save_settings_example =
    get_settings-save_settings none 7 7 40 50 true true true values st "low_stock_threshold"
      low_known values-IsUnique row-IsUnique

validate_bounds_example :
    ((n : ℕ) × (int_of (validate "low_stock_threshold" " 250 ") ≡ some (pos n))
      × (1 ≤ n)
      × (n ≤ 100))
    × ((n : ℕ) × (int_of (validate "critical_threshold" " 250 ") ≡ some (pos n)) × (n ≤ 99))
validate_bounds_example = validate_bounds " 250 "
