-- ===== src/Stock/Query.antt =====
-- `list_movements`, `get_movement_count` and `export_movements` of app/services/movement_service.py:
-- what they check before they pass the query on to the database.
use inventory_logix_dashboar.Base.{
  ℕ, zero, suc, String, Bool, ◌||◌, Option, none, some, List, [], ◌∷◌, ltb, is_some, str_eq,
  if◌then◌else◌, any_of,
}
use inventory_logix_dashboar.Base.Int.{ℤ, pos, negsuc}
use inventory_logix_dashboar.Stock.{movement_type}

-- A value that should be an `int`, from a caller that may pass another.
pub data Value : Type 0 where
  int : ℕ → Value
  other : Value

-- `type_filter`: a list, or a single text.
pub data TypeFilter : Type 0 where
  one : String → TypeFilter
  many : List String → TypeFilter

-- The filters that the three share.
pub record Filters : Type 0 where
  pub types : Option TypeFilter
  pub date_from : Option String
  pub date_to : Option String
  pub product_id : Option Value
  pub user_id : Option Value

-- The `MovementError`s
pub data QueryError : Type 0 where
  bad_page : QueryError
  bad_per_page : QueryError
  bad_limit : QueryError
  bad_sort_by : QueryError
  bad_sort_order : QueryError
  bad_type : String → QueryError
  bad_date_from : QueryError
  bad_date_to : QueryError
  bad_product_id : QueryError
  bad_user_id : QueryError

-- An error, or what is passed on.
pub data Checked (A : Type 0) : Type 0 where
  rejected : QueryError → Checked A
  passed : A → Checked A

-- The arguments of `MovementRepository.list_movements`; `types` is the list that the filter stands for.
pub record ListQuery : Type 0 where
  pub types : Option (List String)
  pub filters : Filters
  pub page : ℕ
  pub per_page : ℕ
  pub sort_by : String
  pub sort_order : String

-- The arguments of `MovementRepository.get_movement_count`
pub record CountQuery : Type 0 where
  pub types : Option (List String)
  pub filters : Filters

-- The arguments of `MovementRepository.export_movements`
pub record ExportQuery : Type 0 where
  pub types : Option (List String)
  pub filters : Filters
  pub sort_by : String
  pub sort_order : String
  pub limit : ℕ

-- `x`, if it is at least 1
unfoldable pub at_least_one : ℤ → Option ℕ
at_least_one (negsuc n) = none
at_least_one (pos zero) = none
at_least_one (pos (suc n)) = some (suc n)

unfoldable pub capped : ℕ → ℕ → ℕ
capped bound n = if ltb bound n then bound else n

-- `valid_sort_fields`
abbrev pub sort_fields : List String
sort_fields = "created_at" ∷ "type" ∷ "product" ∷ "user" ∷ "quantity" ∷ []

unfoldable pub is_sort_field : String → Bool
is_sort_field s = any_of (str_eq s) sort_fields

unfoldable pub is_sort_order : String → Bool
is_sort_order s = str_eq s "asc" || str_eq s "desc"

-- `type_filter`, as a list
unfoldable pub type_list : Option TypeFilter → Option (List String)
type_list none = none
type_list (some (one t)) = some (t ∷ [])
type_list (some (many ts)) = some ts

-- The first text that is not of `ALLOWED_TYPES`.
unfoldable pub bad_types : List String → Option QueryError
bad_types [] = none
bad_types (t ∷ ts) =
    let rest = bad_types ts in if is_some (movement_type t) then rest else some (bad_type t)

unfoldable pub bad_type_list : Option (List String) → Option QueryError
bad_type_list none = none
bad_type_list (some ts) = bad_types ts

unfoldable pub bad_date : (String → Bool) → Option String → QueryError → Option QueryError
bad_date is_iso_date none e = none
bad_date is_iso_date (some d) e = if is_iso_date d then none else some e

unfoldable pub bad_int : Option Value → QueryError → Option QueryError
bad_int none e = none
bad_int (some (int n)) e = none
bad_int (some other) e = some e

-- The first of the two errors.
unfoldable pub first_error : Option QueryError → Option QueryError → Option QueryError
first_error (some e) later = some e
first_error none later = later

-- The checks of the filters, of which each of the three has a copy of its own, in the order of the
-- code; `is_iso_date d` says that `datetime.fromisoformat(d.replace('Z', '+00:00'))` does not raise.
unfoldable pub bad_filters : (String → Bool) → Filters → Option QueryError
bad_filters is_iso_date f = first_error (bad_type_list (type_list f.types)) (
    first_error (bad_date is_iso_date f.date_from bad_date_from) (
      first_error (bad_date is_iso_date f.date_to bad_date_to)
        (first_error (bad_int f.product_id bad_product_id) (bad_int f.user_id bad_user_id))))

unfoldable pub bad_count_filters : (String → Bool) → Filters → Option QueryError
bad_count_filters is_iso_date f = first_error (bad_type_list (type_list f.types)) (
    first_error (bad_date is_iso_date f.date_from bad_date_from) (
      first_error (bad_date is_iso_date f.date_to bad_date_to)
        (first_error (bad_int f.product_id bad_product_id) (bad_int f.user_id bad_user_id))))

unfoldable pub bad_export_filters : (String → Bool) → Filters → Option QueryError
bad_export_filters is_iso_date f = first_error (bad_type_list (type_list f.types)) (
    first_error (bad_date is_iso_date f.date_from bad_date_from) (
      first_error (bad_date is_iso_date f.date_to bad_date_to)
        (first_error (bad_int f.product_id bad_product_id) (bad_int f.user_id bad_user_id))))

unfoldable pub pass_unless : {A : Type 0} → Option QueryError → A → Checked A
pass_unless (some e) q = rejected e
pass_unless none q = passed q

unfoldable pub bad_sorting : String → String → Option QueryError
bad_sorting sort_by sort_order =
    if is_sort_field sort_by
    then (if is_sort_order sort_order then none else some bad_sort_order)
    else some bad_sort_by

unfoldable pub paged :
    Option ℕ → Option ℕ → (String → Bool) → Filters → String → String → Checked ListQuery
paged none per_page is_iso_date f sort_by sort_order = rejected bad_page
paged (some page) none is_iso_date f sort_by sort_order = rejected bad_per_page
paged (some page) (some per_page) is_iso_date f sort_by sort_order =
    let q : ListQuery = record {
      types = type_list f.types;
      filters = f;
      page = page;
      per_page = capped 100 per_page;
      sort_by = sort_by;
      sort_order = sort_order;
    } in
    pass_unless (first_error (bad_sorting sort_by sort_order) (bad_filters is_iso_date f)) q

unfoldable pub list_movements :
    (String → Bool) → Filters → ℤ → ℤ → String → String → Checked ListQuery
list_movements is_iso_date f page per_page sort_by sort_order =
    paged (at_least_one page) (at_least_one per_page) is_iso_date f sort_by sort_order

unfoldable pub get_movement_count : (String → Bool) → Filters → Checked CountQuery
get_movement_count is_iso_date f =
    let q : CountQuery = record { types = type_list f.types; filters = f } in
    pass_unless (bad_count_filters is_iso_date f) q

unfoldable pub limited :
    Option ℕ → (String → Bool) → Filters → String → String → Checked ExportQuery
limited none is_iso_date f sort_by sort_order = rejected bad_limit
limited (some limit) is_iso_date f sort_by sort_order =
    let q : ExportQuery = record {
      types = type_list f.types;
      filters = f;
      sort_by = sort_by;
      sort_order = sort_order;
      limit = capped 5000 limit;
    } in
    pass_unless (first_error (bad_sorting sort_by sort_order) (bad_export_filters is_iso_date f)) q

unfoldable pub export_movements :
    (String → Bool) → Filters → String → String → ℤ → Checked ExportQuery
export_movements is_iso_date f sort_by sort_order limit =
    limited (at_least_one limit) is_iso_date f sort_by sort_order
