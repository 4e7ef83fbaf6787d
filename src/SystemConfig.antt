-- ===== src/SystemConfig.antt =====
-- app/services/system_config_service.py, app/repositories/system_config_repo.py and the admin's pages
-- in app/routes/admin/system_config_routes.py: the overrides of the system's configuration, in the
-- table `system_config_overrides`. Deletion is soft, and a later write revives the row.
pub mod History
pub mod Proper
mod Examples
use inventory_logix_dashboar.Base.{
  ℕ, String, Bool, true, false, not, ◌&&◌, Option, none, some, List, [], ◌∷◌, ◌++◌, str_eq,
  if◌then◌else◌, any_of, update_where, keep_if, is_some, map,
}
use inventory_logix_dashboar.Base.Dict.{OrderedDict, lookup}
use inventory_logix_dashboar.Base.Text.{strip, upper, lower, after_first}

-- A row of `system_config_overrides`. The time of its last update and its number are not read.
pub record Override : Type 0 where
  pub key : String
  pub value : String
  pub description : String
  pub is_sensitive : Bool
  pub updated_by : ℕ
  pub deleted_at : Option ℕ

-- A row as the pages get it, with the two fields that are added on reading.
pub record Shown : Type 0 where
  pub row : Override
  pub is_sensitive : Bool
  pub display_value : String

-- The types of `ALLOWED_KEYS`: one alone is in use, so the branches of the others never run.
pub data KeyType : Type 0 where
  bool_type : KeyType

-- What a page refuses, or the service raises.
pub data Refusal : Type 0 where
  auth_required : Refusal
  key_missing : Refusal
  key_not_allowed : Refusal
  not_boolean : Refusal
  not_found : Refusal

-- `ALLOWED_KEYS`
abbrev pub allowed_keys : OrderedDict KeyType
allowed_keys = ("RUN_ETL_ON_STARTUP", bool_type) ∷ []

-- `SENSITIVE_KEY_PATTERNS`
abbrev pub sensitive_patterns : List String
sensitive_patterns =
    "SECRET_KEY" ∷ "PASSWORD" ∷ "TOKEN" ∷ "KEY" ∷ "SECRET" ∷ "API_KEY" ∷ "PRIVATE" ∷ "DB_PASSWORD"
    ∷ "DATABASE_URL" ∷ "SMTP_PASSWORD" ∷ "SENDGRID_API_KEY" ∷ "NVIDIA_API_KEY" ∷ []

abbrev pub boolean_words : List String
boolean_words = "true" ∷ "false" ∷ "1" ∷ "0" ∷ "yes" ∷ "no" ∷ "on" ∷ "off" ∷ []

-- `SystemConfigService.is_sensitive_key`
unfoldable pub is_sensitive_key : String → Bool
is_sensitive_key key =
    any_of (λ pattern_. is_some (after_first pattern_ (upper key))) sensitive_patterns

-- `SystemConfigService.validate_key`
unfoldable pub validate_key : String → Option Refusal
validate_key key = if is_some (lookup key allowed_keys) then none else some key_not_allowed

check_type : Option KeyType → String → Option Refusal
check_type none value = some key_not_allowed
check_type (some bool_type) value =
    if any_of (str_eq (lower value)) boolean_words then none else some not_boolean

-- `SystemConfigService.validate_value`
unfoldable pub validate_value : String → String → Option Refusal
unfolding check_type
validate_value key value = check_type (lookup key allowed_keys) value

unfoldable pub has_key : String → Override → Bool
has_key key row = str_eq row.key key

unfoldable pub is_live : Override → Bool
is_live row = not (is_some row.deleted_at)

-- `SystemConfigRepository.get_by_key`
unfoldable pub find_live : String → List Override → Option Override
unfolding has_key is_live
find_live key [] = none
find_live key (row ∷ rows) = if has_key key row && is_live row then some row else find_live key rows

unfoldable pub shown : Override → Shown
shown row = record {
  row = row;
  is_sensitive = is_sensitive_key row.key;
  display_value = if is_sensitive_key row.key then "********" else row.value;
}

shown_option : Option Override → Option Shown
unfolding shown
shown_option none = none
shown_option (some row) = some (shown row)

-- `SystemConfigService.get_by_key`
unfoldable pub get_by_key : String → List Override → Option Shown
unfolding shown_option find_live
get_by_key key rows = shown_option (find_live key rows)

insert_sorted : (String → String → Bool) → Override → List Override → List Override
insert_sorted before row [] = row ∷ []
insert_sorted before row (first ∷ rows) =
    let rest = insert_sorted before row rows in
    if before row.key first.key then row ∷ first ∷ rows else first ∷ rest

order_by_key : (String → String → Bool) → List Override → List Override
unfolding insert_sorted
order_by_key before [] = []
order_by_key before (row ∷ rows) = insert_sorted before row (order_by_key before rows)

-- `SystemConfigService.get_all`, where `before` is the order of texts in the database.
unfoldable pub get_all : (String → String → Bool) → List Override → List Shown
unfolding order_by_key shown is_live
get_all before rows = map shown (order_by_key before (keep_if is_live rows))

unfoldable pub rewritten : String → String → ℕ → Override → Override
rewritten value description user row = record row {
  value = value;
  description = description;
  is_sensitive = is_sensitive_key row.key;
  updated_by = user;
  deleted_at = none;
}

unfoldable pub new_override : String → String → String → ℕ → Override
new_override key value description user = record {
  key = key;
  value = value;
  description = description;
  is_sensitive = is_sensitive_key key;
  updated_by = user;
  deleted_at = none;
}

-- `SystemConfigRepository.set_override`: an update, deleted rows included, or else an insert.
unfoldable pub store_override : String → String → String → ℕ → List Override → List Override
unfolding has_key rewritten new_override
store_override key value description user rows =
    if any_of (has_key key) rows
    then update_where (has_key key) (rewritten value description user) rows
    else rows ++ new_override key value description user ∷ []

-- `SystemConfigService.set_override`
unfoldable pub set_override :
    String → String → String → Option ℕ → List Override → Option Refusal × List Override
unfolding store_override
set_override key value description none rows = (some auth_required, rows)
set_override key value description (some user) rows =
    (none, store_override key value description user rows)

unfoldable pub marked_deleted : ℕ → Override → Override
marked_deleted now row = record row { deleted_at = some now }

-- `SystemConfigService.delete_override` with the repository's statement
unfoldable pub delete_override :
    String → Option ℕ → ℕ → List Override → Option Refusal × List Override
unfolding has_key marked_deleted
delete_override key none now rows = (some auth_required, rows)
delete_override key (some user) now rows =
    (none, update_where (has_key key) (marked_deleted now) rows)

-- Go on unless something was refused.
unfoldable pub unless_refused :
    Option Refusal → List Override → Option Refusal × List Override → Option Refusal × List Override
unless_refused none rows next = next
unless_refused (some refusal) rows next = (some refusal, rows)

-- The page `create`, when a form is sent to it by `user`.
unfoldable pub create :
    String → String → String → Option ℕ → List Override → Option Refusal × List Override
unfolding unless_refused validate_key validate_value set_override
create key value description user rows =
    if str_eq (strip key) ""
    then (some key_missing, rows)
    else unless_refused (validate_key (strip key)) rows (
        unless_refused (validate_value (strip key) (strip value)) rows
          (set_override (strip key) (strip value) (strip description) user rows))

edit_found :
    Option Shown
    → String
    → String
    → String
    → Option ℕ
    → List Override
    → Option Refusal × List Override
unfolding unless_refused validate_value set_override
edit_found none key value description user rows = (some not_found, rows)
edit_found (some found) key value description user rows =
    unless_refused (validate_value key (strip value)) rows
      (set_override key (strip value) (strip description) user rows)

-- The page `edit`, when a form is sent to it.
unfoldable pub edit :
    String → String → String → Option ℕ → List Override → Option Refusal × List Override
unfolding edit_found get_by_key
edit key value description user rows =
    edit_found (get_by_key key rows) key value description user rows
