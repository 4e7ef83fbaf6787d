-- ===== src/Etl/Codes.antt =====
-- app/database/etl.py, `_parse_warehouse` and the first part of `_build_dims`: the codes that new rows
-- of `dim_warehouse` get.
pub mod Distinct
use Prim.Native.String.{◌++◌ as append}
use inventory_logix_dashboar.Base.{
  ℕ, zero, suc, ◌+◌, String, Bool, true, false, Option, none, some, List, [], ◌∷◌, map, str_eq,
  if◌then◌else◌, any_of, length,
}
use inventory_logix_dashboar.Base.Dict.{OrderedDict, lookup}
use inventory_logix_dashboar.Base.Decimal.{str_of}
use inventory_logix_dashboar.Base.Text.{
  take_chars, drop_chars, begins_with, after_first, strip, or_text, upper, keep_digits, zfill_two,
}

-- `_REGION_HINT`
abbrev pub region_hint : OrderedDict String
region_hint =
    ("Pune", "Central")
    ∷ ("Mumbai", "West")
    ∷ ("Delhi", "North")
    ∷ ("Bengaluru", "South")
    ∷ ("Chennai", "South")
    ∷ []

-- A row of `dim_warehouse` before it has a key.
pub record NewWarehouse : Type 0 where
  pub warehouse_code : String
  pub warehouse_name : String
  pub city : String
  pub region : String

abbrev body_or : String → Option String → String
body_or name none = name
body_or name (some rest) = strip rest

abbrev region_or : Option String → String
region_or none = "General"
region_or (some region) = region

-- `body`: what stands after " - ", for a legacy name
unfoldable pub body_of : String → String
body_of name = body_or name (after_first " - " name)

unfoldable pub city_of : String → String
city_of body =
    if begins_with body "WH-"
    then or_text (strip (drop_chars 3 body)) "Unknown"
    else or_text body "Unknown"

unfoldable pub code_of : String → String → String
code_of name city =
    if begins_with name "WH-"
    then append "WH-" (upper (take_chars 3 city))
    else append "WH" (zfill_two (take_chars 2 (or_text (keep_digits name) "00")))

-- `_parse_warehouse`
unfoldable pub parse_warehouse : String → NewWarehouse
unfolding body_of city_of code_of
parse_warehouse name =
    let city = city_of (body_of name) in
    let row : NewWarehouse = record {
      warehouse_code = code_of name city;
      warehouse_name = name;
      city = city;
      region = region_or (lookup city region_hint);
    } in
    row

-- `code in used_codes`
unfoldable pub is_used : String → List String → Bool
is_used code used = any_of (str_eq code) used

-- `f"{code}-{n}"`
unfoldable pub suffixed : String → ℕ → String
suffixed code n = append code (append "-" (str_of n))

-- The loop `while f"{code}-{n}" in used_codes: n += 1`, with fuel.
unfoldable pub next_free : ℕ → String → List String → ℕ → ℕ
next_free zero code used n = n
next_free (suc fuel) code used n = elim (is_used (suffixed code n) used) [
  | true ↦ next_free fuel code used (n + 1)
  | false ↦ n
]

-- A code that is not used: as many rounds as there are codes are enough.
unfoldable pub unique_code : String → List String → String
unfolding next_free
unique_code code used =
    if is_used code used then suffixed code (next_free (length used) code used 2) else code

-- The loop over `warehouse_names`: the rows to insert. `known` are the names that have a key.
unfoldable pub new_warehouses : List String → List String → List String → List NewWarehouse
new_warehouses known used [] = []
new_warehouses known used (name ∷ names) =
    let row = parse_warehouse name in
    let code = unique_code row.warehouse_code used in
    elim (any_of (str_eq name) known) [
      | true ↦ new_warehouses known used names
      | false ↦ record row { warehouse_code = code } ∷ new_warehouses known (code ∷ used) names
    ]
