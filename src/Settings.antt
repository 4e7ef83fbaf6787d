-- ===== src/Settings.antt =====
-- app/services/settings_service.py: the settings of a user, with the global cache in front of the table
-- `user_settings` and the copy that a request keeps. A raw value is the text that `str` gives of it.
pub mod Merge
pub mod Saved
mod Examples
use Prim.Native.String.{◌++◌ as append}
use inventory_logix_dashboar.Base.{
  ℕ, max, min, String, Bool, true, false, ◌||◌, Option, none, some, List, [], ◌∷◌, ◌==◌, str_eq,
  if◌then◌else◌, any_of, keep_if, is_some,
}
use inventory_logix_dashboar.Base.Int.{ℤ, pos, negsuc}
use inventory_logix_dashboar.Base.Dict.{OrderedDict, lookup, assign}
use inventory_logix_dashboar.Base.Decimal.{str_of, int_of}
use inventory_logix_dashboar.Base.Text.{strip}
use inventory_logix_dashboar.Cache.{TtlCache, get, set, invalidate}

-- `DEFAULTS`
abbrev pub defaults : OrderedDict String
defaults =
    ("dark_mode", "")
    ∷ ("live_data", "on")
    ∷ ("sound_alerts", "off")
    ∷ ("ai_recommendations", "on")
    ∷ ("auto_reorder", "off")
    ∷ ("low_stock_threshold", "20")
    ∷ ("critical_threshold", "10")
    ∷ ("slack_connected", "off")
    ∷ ("email_alerts", "on")
    ∷ []

-- `_BOOL_KEYS`
abbrev pub bool_keys : List String
bool_keys =
    "dark_mode" ∷ "live_data" ∷ "sound_alerts" ∷ "ai_recommendations" ∷ "auto_reorder"
    ∷ "slack_connected" ∷ "email_alerts" ∷ []

unfoldable pub is_among : String → List String → Bool
is_among s texts = any_of (str_eq s) texts

-- `key in DEFAULTS`
unfoldable pub is_known : String → Bool
is_known key = is_some (lookup key defaults)

-- `_int_or`
unfoldable pub int_or : String → ℕ → ℤ
int_or value default = elim (int_of value) [ none ↦ pos default | some z ↦ z ]

-- `max(low, min(high, z))`
unfoldable pub clamp : ℕ → ℕ → ℤ → ℕ
clamp low high (pos n) = max low (min high n)
clamp low high (negsuc n) = low

unfoldable pub bool_text : String → String
unfolding is_among
bool_text value =
    if is_among value ("1" ∷ "true" ∷ "yes" ∷ "on" ∷ "True" ∷ [])
    then "on"
    else if is_among value ("0" ∷ "false" ∷ "no" ∷ "off" ∷ "False" ∷ [])
    then "off"
    else value

-- `_validate`
unfoldable pub validate : String → String → String
unfolding bool_text is_among int_or clamp
validate key raw =
    let value = strip raw in
    if is_among key bool_keys
    then bool_text value
    else if str_eq key "low_stock_threshold"
    then str_of (clamp 1 100 (int_or value 20))
    else if str_eq key "critical_threshold"
    then str_of (clamp 0 99 (int_or value 10))
    else value

-- `d.update(s)`
unfoldable pub update_dict : OrderedDict String → OrderedDict String → OrderedDict String
update_dict d [] = d
update_dict d ((k, v) ∷ s) = update_dict (assign k v d) s

unfoldable pub known_only : OrderedDict String → OrderedDict String
known_only s = keep_if (λ (e : String × String). is_known e.0) s

-- The defaults with what is stored over them
unfoldable pub merged : OrderedDict String → OrderedDict String
unfolding update_dict known_only
merged stored = update_dict defaults (known_only stored)

-- The rows of `user_settings` by user, and the entries `settings:<id>` of `global_cache`
pub record SettingsState : Type 0 where
  pub table : ℕ → OrderedDict String
  pub global_cache : TtlCache (OrderedDict String)

unfoldable pub cache_key : ℕ → String
cache_key user_id = append "settings:" (str_of user_id)

-- The stored settings, from the cache or else from the table, which then goes into the cache; `none` is
-- an exception, where `reads` says that the table cannot be read.
unfoldable pub load :
    ℕ
    → ℕ
    → Bool
    → Option (OrderedDict String) × TtlCache (OrderedDict String)
    → SettingsState
    → Option (OrderedDict String) × SettingsState
load user_id now reads (some stored, c) st = (some stored, record st { global_cache = c })
load user_id now true (none, c) st = (
  some (st.table user_id),
  record st { global_cache = set (cache_key user_id) (st.table user_id) none now c },
)
load user_id now false (none, c) st = (none, record st { global_cache = c })

unfoldable pub get_stored :
    ℕ → ℕ → Bool → SettingsState → Option (OrderedDict String) × SettingsState
unfolding load cache_key
get_stored user_id now reads st =
    load user_id now reads (get (cache_key user_id) now st.global_cache) st

-- What `get_settings` answers: the defaults also where an exception was swallowed.
unfoldable pub merged_or_defaults : Option (OrderedDict String) → OrderedDict String
unfolding merged
merged_or_defaults none = defaults
merged_or_defaults (some stored) = merged stored

-- `get_settings`, for the copy in `g` and the user, if one is logged in; the ids of users start at 1.
unfoldable pub get_settings :
    Option (OrderedDict String)
    → Option ℕ
    → ℕ
    → Bool
    → SettingsState
    → OrderedDict String × SettingsState
unfolding merged_or_defaults get_stored
get_settings (some cached) user now reads st = (cached, st)
get_settings none none now reads st = (defaults, st)
get_settings none (some user_id) now reads st =
    let (stored, after) = get_stored user_id now reads st in (merged_or_defaults stored, after)

-- `cleaned`; the keys of `values` are different.
unfoldable pub cleaned : OrderedDict String → OrderedDict String
cleaned [] = []
cleaned ((key, raw) ∷ values) =
    let rest = cleaned values in if is_known key then (key, validate key raw) ∷ rest else rest

unfoldable pub store_many : ℕ → OrderedDict String → SettingsState → SettingsState
unfolding update_dict
store_many user_id values st = record st {
  table = λ id. if id == user_id then update_dict (st.table id) values else st.table id;
}

-- Nothing is written where the table cannot be; `none` is an exception.
unfoldable pub save_cleaned :
    Option (OrderedDict String)
    → ℕ
    → ℕ
    → Bool
    → Bool
    → OrderedDict String
    → SettingsState
    → Option (OrderedDict String) × SettingsState
unfolding store_many get_settings merged
save_cleaned g user_id now writes reads [] st =
    let (d, after) = get_settings g (some user_id) now reads st in (some d, after)
save_cleaned g user_id now false reads (e ∷ values) st = (none, st)
save_cleaned g user_id now true reads (e ∷ values) st =
    let after = store_many user_id (e ∷ values) st in
    (if reads then some (merged (after.table user_id)) else none, after)

-- `save_settings`, where the table can be written and then read or not; `none` is an exception, also
-- where nobody is logged in.
unfoldable pub save_settings :
    Option (OrderedDict String)
    → Option ℕ
    → ℕ
    → Bool
    → Bool
    → OrderedDict String
    → SettingsState
    → Option (OrderedDict String) × SettingsState
unfolding save_cleaned cleaned
save_settings g none now writes reads values st = (none, st)
save_settings g (some user_id) now writes reads values st =
    save_cleaned g user_id now writes reads (cleaned values) st

-- `cache_bust_settings`, for the global cache
unfoldable pub bust : SettingsState → SettingsState
bust st = record st { global_cache = (invalidate "" st.global_cache).1 }
