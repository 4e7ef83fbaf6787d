-- ===== src/Auth.antt =====
-- The lockout of app/services/auth_service.py: the counter of each worker process, the counter in the
-- table `rate_limit_state`, and `authenticate`, which holds `_failed_logins_lock` from the first gate to
-- the last write. Times are whole seconds; within one call every reading of the clock gives `now`.
pub mod Lockout
pub mod Shared
pub mod Accounts
pub mod Resets
mod Examples
use inventory_logix_dashboar.Base.{
  ℕ, suc, ◌+◌, ◌-◌, ◌/◌, max, String, Bool, true, false, not, ◌&&◌, ◌||◌, Option, none, some, List,
  [], ◌∷◌, ◌++◌, ltb, leb, ◌==◌, if◌then◌else◌, length,
}
use inventory_logix_dashboar.Base.Dict.{OrderedDict, lookup, assign, remove}

abbrev pub max_failed_attempts : ℕ
max_failed_attempts = 5

-- `LOCKOUT_MINUTES`, in seconds
abbrev pub lockout_seconds : ℕ
lockout_seconds = 900

-- A row of `rate_limit_state`
pub record RateRow : Type 0 where
  pub count : ℕ
  pub window_start : ℕ
  pub expires_at : ℕ

-- The columns of `users` that a login reads.
pub record User : Type 0 where
  pub id : ℕ
  pub is_active : Bool
  pub password_hash : Option String

pub data AuditEvent : Type 0 where
  account_locked : ℕ → AuditEvent
  login : ℕ → AuditEvent
  login_failed : ℕ → AuditEvent

-- `failed` is `_failed_logins`, where a user with no entry has the empty list, the first attempt first;
-- `sessions` are the users of the sessions that were made.
pub record AuthState : Type 0 where
  pub failed : ℕ → List ℕ
  pub rates : OrderedDict RateRow
  pub audit : List AuditEvent
  pub sessions : List ℕ

-- An `AuthError` for bad credentials, one that gives the minutes of the lock, or the user.
pub data LoginResult : Type 0 where
  invalid_credentials : LoginResult
  locked : ℕ → LoginResult
  logged_in : User → LoginResult

-- `math.ceil(seconds / 60)`
unfoldable pub minutes_up : ℕ → ℕ
minutes_up seconds = (seconds + 59) / 60

-- The count that still matters: 0 after the window, or after the expiry.
unfoldable pub live_count : RateRow → ℕ → ℕ
live_count row now =
    if ltb (row.window_start + lockout_seconds) now || ltb row.expires_at now then 0 else row.count

unfoldable pub check_row : Option RateRow → ℕ → Option ℕ
check_row none now = none
check_row (some row) now =
    if leb max_failed_attempts (live_count row now)
    then some (max 1 (minutes_up ((row.expires_at - now) + 1)))
    else none

-- `_check_rate_limit`: the minutes that remain, if the account is locked.
unfoldable pub check_rate_limit : String → ℕ → OrderedDict RateRow → Option ℕ
unfolding check_row
check_rate_limit key now rates = check_row (lookup key rates) now

unfoldable pub bumped : Option RateRow → ℕ → RateRow
bumped none now = record { count = 1; window_start = now; expires_at = now + lockout_seconds }
bumped (some row) now =
    let expired = ltb (row.window_start + lockout_seconds) now in
    record {
      count = (if expired then 1 else row.count + 1);
      window_start = (if expired then now else row.window_start);
      expires_at = now + lockout_seconds;
    }

-- `_record_failed_attempt`: the upsert of the row.
unfoldable pub record_failed_attempt : String → ℕ → OrderedDict RateRow → OrderedDict RateRow
unfolding bumped
record_failed_attempt key now rates = assign key (bumped (lookup key rates) now) rates

-- `_clear_rate_limit`
unfoldable pub clear_rate_limit : String → OrderedDict RateRow → OrderedDict RateRow
clear_rate_limit key rates = remove key rates

-- `_failed_logins[uid] = entries`
unfoldable pub put_failed : ℕ → List ℕ → (ℕ → List ℕ) → ℕ → List ℕ
put_failed uid entries failed n = if n == uid then entries else failed n

-- The first gate: the minutes of the lock, or the attempts that still count.
pub data Gate : Type 0 where
  closed : ℕ → Gate
  passed : List ℕ → Gate

unfoldable pub first_gate : List ℕ → ℕ → Gate
first_gate [] now = passed []
first_gate (first ∷ entries) now =
    if ltb (first + lockout_seconds) now
    then passed []
    else if leb max_failed_attempts (length (first ∷ entries))
    then closed (max 1 (minutes_up ((first + lockout_seconds) - now)))
    else passed (first ∷ entries)

unfoldable pub locked_out : ℕ → ℕ → AuthState → LoginResult × AuthState
locked_out uid minutes st =
    (locked minutes, record st { audit = st.audit ++ account_locked uid ∷ [] })

-- What follows the gates.
unfoldable pub verified : Bool → User → String → ℕ → AuthState → LoginResult × AuthState
verified true user key now st = (
  logged_in user,
  record {
    failed = put_failed user.id [] st.failed;
    rates = clear_rate_limit key st.rates;
    audit = st.audit ++ login user.id ∷ [];
    sessions = st.sessions ++ user.id ∷ [];
  },
)
verified false user key now st = (
  invalid_credentials,
  record st {
    failed = put_failed user.id (st.failed user.id ++ now ∷ []) st.failed;
    rates = record_failed_attempt key now st.rates;
    audit = st.audit ++ login_failed user.id ∷ [];
  },
)

unfoldable pub second_gate :
    Option ℕ → Bool → User → String → ℕ → AuthState → LoginResult × AuthState
second_gate (some minutes) ok user key now st = locked_out user.id minutes st
second_gate none ok user key now st = verified ok user key now st

unfoldable pub gated : Gate → Bool → User → String → ℕ → AuthState → LoginResult × AuthState
gated (closed minutes) ok user key now st = locked_out user.id minutes st
gated (passed entries) ok user key now st =
    second_gate (check_rate_limit key now st.rates) ok user key now
      (record st { failed = put_failed user.id entries st.failed })

unfoldable pub with_hash :
    Option String
    → (String → String → Bool)
    → User
    → String
    → String
    → ℕ
    → AuthState
    → LoginResult × AuthState
with_hash none verify user key password now st = (invalid_credentials, st)
with_hash (some hash) verify user key password now st =
    gated (first_gate (st.failed user.id) now) (verify password hash) user key now st

-- `authenticate`, for the user that `find_by_username` gave; `verify` is `verify_password`, and `key` is
-- the rate limit's key of the name. Whether the password is right is read after both gates only.
unfoldable pub authenticate :
    (String → String → Bool)
    → Option User
    → String
    → String
    → ℕ
    → AuthState
    → LoginResult × AuthState
authenticate verify none key password now st = (invalid_credentials, st)
authenticate verify (some user) key password now st =
    if not user.is_active
    then (invalid_credentials, st)
    else with_hash user.password_hash verify user key password now st
