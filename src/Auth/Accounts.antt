-- ===== src/Auth/Accounts.antt =====
-- Accounts: `register`, `request_password_reset` and `reset_password` of app/services/auth_service.py with
-- the checks of app/security/validators.py and the tables that app/repositories/user_repo.py writes.
-- Times are whole seconds. Emails, audit rows and the hash of a password are left out.
use inventory_logix_dashboar.Base.{
  ℕ, zero, suc, ◌+◌, String, Bool, true, false, not, ◌&&◌, ◌||◌, Option, none, some, List, [], ◌∷◌,
  ◌++◌, ltb, ◌==◌, str_eq, if◌then◌else◌, any_of, keep_if, update_where,
}

-- The functions of Python's strings and of its patterns that the validators call.
pub record Texts : Type 0 where
  pub strip : String → String
  pub lower : String → String
  pub chars : String → ℕ
  pub matches_username : String → Bool
  pub matches_email : String → Bool
  pub has_letter : String → Bool
  pub has_digit : String → Bool

-- The errors of the validators, then those of the service.
pub data AccountError : Type 0 where
  bad_username bad_email password_short password_long password_no_letter password_no_digit :
      AccountError
  username_taken email_taken token_invalid token_used token_expired : AccountError

pub data Valid : Type 0 where
  bad : AccountError → Valid
  good : String → Valid

unfoldable pub validate_username : Texts → String → Valid
validate_username t value =
    if str_eq value "" || not (t.matches_username (t.strip value))
    then bad bad_username
    else good (t.lower (t.strip value))

unfoldable pub validate_email : Texts → String → Valid
validate_email t value =
    if str_eq value "" || not (t.matches_email (t.strip value))
    then bad bad_email
    else good (t.lower (t.strip value))

unfoldable pub validate_password_strength : Texts → String → Valid
validate_password_strength t value =
    if ltb (t.chars value) 8
    then bad password_short
    else if ltb 128 (t.chars value)
    then bad password_long
    else if not (t.has_letter value)
    then bad password_no_letter
    else if not (t.has_digit value)
    then bad password_no_digit
    else good value

pub record Account : Type 0 where
  pub id : ℕ
  pub username : String
  pub email : String
  pub password : String
  pub role : String
  pub is_active : Bool

-- A row of `password_reset_tokens`
pub record ResetToken : Type 0 where
  pub id : ℕ
  pub user_id : ℕ
  pub token_hash : String
  pub expires_at : ℕ
  pub used : Bool

-- A row of `user_sessions`
pub record Session : Type 0 where
  pub user_id : ℕ
  pub is_active : Bool

-- The tables; `next_user` and `next_token` are their sequences.
pub record Accounts : Type 0 where
  pub users : List Account
  pub tokens : List ResetToken
  pub sessions : List Session
  pub next_user : ℕ
  pub next_token : ℕ

-- An error, the user that the call wrote and the tables after it, or the tables at an exception of the
-- database between two of the call's commits.
pub data Answer : Type 0 where
  refused : AccountError → Answer
  wrote : ℕ → Accounts → Answer
  interrupted : Accounts → Answer

-- The call goes on with the value, if it is valid.
unfoldable pub with_valid : Valid → (String → Answer) → Answer
with_valid (bad e) go_on = refused e
with_valid (good s) go_on = go_on s

unfoldable pub add_user : String → String → String → Accounts → Answer
add_user username email password a =
    let user : Account = record {
      id = a.next_user;
      username = username;
      email = email;
      password = password;
      role = "viewer";
      is_active = true;
    } in
    if any_of (λ u. str_eq u.username username) a.users
    then refused username_taken
    else if any_of (λ u. str_eq u.email email) a.users
    then refused email_taken
    else wrote a.next_user (record a { users = a.users ++ user ∷ []; next_user = suc a.next_user })

-- `register`; the role that the caller asks for is not read.
unfoldable pub register : Texts → String → String → String → String → Accounts → Answer
register t username email password role a = with_valid (validate_username t username) λ name.
    with_valid (validate_email t email) λ address.
      with_valid (validate_password_strength t password) λ secret. add_user name address secret a

unfoldable pub find_by_email : String → List Account → Option Account
find_by_email email [] = none
find_by_email email (u ∷ users) = if str_eq u.email email then some u else find_by_email email users

-- `purge_reset_tokens`
unfoldable pub purge_reset_tokens : ℕ → List ResetToken → List ResetToken
purge_reset_tokens user_id tokens = keep_if (λ t. not (t.user_id == user_id)) tokens

-- `create_reset_token`
unfoldable pub create_reset_token : ℕ → String → ℕ → Accounts → Accounts
create_reset_token user_id token_hash expires_at a = record a {
  tokens =
      a.tokens
      ++ record {
        id = a.next_token;
        user_id = user_id;
        token_hash = token_hash;
        expires_at = expires_at;
        used = false;
      }
        ∷ [];
  next_token = suc a.next_token;
}

unfoldable pub request_for : Option Account → String → ℕ → ℕ → Accounts → Accounts
request_for none token_hash ttl now a = a
request_for (some user) token_hash ttl now a =
    if user.is_active
    then create_reset_token user.id token_hash (now + ttl)
        (record a { tokens = purge_reset_tokens user.id a.tokens })
    else a

unfoldable pub request_valid : Valid → String → ℕ → ℕ → Accounts → Accounts
request_valid (bad e) token_hash ttl now a = a
request_valid (good email) token_hash ttl now a =
    request_for (find_by_email email a.users) token_hash ttl now a

-- `request_password_reset`: the tables after it; `token_hash` is the hash of the token that was drawn, and
-- `ttl` the lifetime of the configuration.
unfoldable pub request_password_reset : Texts → String → String → ℕ → ℕ → Accounts → Accounts
request_password_reset t email token_hash ttl now a =
    request_valid (validate_email t email) token_hash ttl now a

-- `find_valid_reset_token`: the first row with this hash that is neither used nor expired.
unfoldable pub find_reset_token : String → ℕ → List ResetToken → Option ResetToken
find_reset_token token_hash now [] = none
find_reset_token token_hash now (t ∷ tokens) =
    if str_eq t.token_hash token_hash && (not t.used && ltb now t.expires_at)
    then some t
    else find_reset_token token_hash now tokens

-- `set_password`
unfoldable pub set_password : ℕ → String → List Account → List Account
set_password user_id password =
    update_where (λ u. u.id == user_id) (λ u. record u { password = password })

-- `delete_sessions_for_user`
unfoldable pub delete_sessions : ℕ → List Session → List Session
delete_sessions user_id =
    update_where (λ s. s.user_id == user_id && s.is_active) (λ s. record s { is_active = false })

-- `consume_reset_token`
unfoldable pub consume_reset_token : ℕ → List ResetToken → List ResetToken
consume_reset_token token_id = update_where (λ t. t.id == token_id) (λ t. record t { used = true })

-- The first commits of a list of them: whether these are all, and the tables after them.
unfoldable pub run_commits : ℕ → List (Accounts → Accounts) → Accounts → Bool × Accounts
run_commits n [] a = (true, a)
run_commits zero (write ∷ writes) a = (false, a)
run_commits (suc n) (write ∷ writes) a = run_commits n writes (write a)

-- The four commits of a reset, in their order.
unfoldable pub reset_commits : ResetToken → String → List (Accounts → Accounts)
reset_commits t password =
    (λ a. record a { users = set_password t.user_id password a.users })
    ∷ (λ a. record a { sessions = delete_sessions t.user_id a.sessions })
    ∷ (λ a. record a { tokens = consume_reset_token t.id a.tokens })
    ∷ (λ a. record a { tokens = purge_reset_tokens t.user_id a.tokens })
    ∷ []

unfoldable pub reset_answer : ℕ → Bool × Accounts → Answer
reset_answer user_id (true, a) = wrote user_id a
reset_answer user_id (false, a) = interrupted a

unfoldable pub reset_with : Option ResetToken → String → ℕ → ℕ → Accounts → Answer
unfolding run_commits reset_commits reset_answer
reset_with none password now commits a = refused token_invalid
reset_with (some t) password now commits a =
    if t.used
    then refused token_used
    else if not (ltb now t.expires_at)
    then refused token_expired
    else reset_answer t.user_id (run_commits commits (reset_commits t password) a)

-- `reset_password`; `token_hash` is the hash of the token in the link, and `commits` says how many of
-- the transactions are committed before one raises, if fewer than all four.
unfoldable pub reset_password : Texts → String → String → ℕ → ℕ → Accounts → Answer
reset_password t token_hash password now commits a =
    with_valid (validate_password_strength t password)
      λ secret. reset_with (find_reset_token token_hash now a.tokens) secret now commits a
