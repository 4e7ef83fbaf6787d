-- ===== src/Auth/Examples.antt =====
-- Concrete logins.
use inventory_logix_dashboar.Base.{
  ◌≡◌, refl, true, false, some, [], ◌∷◌, arith, ◌==◌, str_eq, if◌then◌else◌, is_some,
}
use inventory_logix_dashboar.Base.Dict.{lookup}
use inventory_logix_dashboar.Auth.{User, AuthState, check_rate_limit}
use inventory_logix_dashboar.Auth.Lockout.{Attempt, attempt_all, IsBounded, attempt_all-IsBounded}
use inventory_logix_dashboar.Auth.Accounts.{Texts, Accounts, reset_password, register}
use inventory_logix_dashboar.Auth.Resets.{
  Resets, reset_password-Resets, Registers, register-Registers,
}
use inventory_logix_dashboar.Auth.Shared.{record_all, record_all-check_rate_limit}

abbrev ann : User
ann = record { id = 1; is_active = true; password_hash = some "secret" }

abbrev start : AuthState
start = record { failed = λ n. []; rates = []; audit = []; sessions = [] }

abbrev guess : Attempt
guess = record { user = some ann; key = "login:ann"; password = "wrong"; now = 1000 }

attempt_all-IsBounded_example : IsBounded (attempt_all str_eq (guess ∷ guess ∷ guess ∷ []) start)
attempt_all-IsBounded_example =
    attempt_all-IsBounded str_eq (guess ∷ guess ∷ guess ∷ []) start (λ n. omega arith)

abbrev after_five : AuthState
after_five = record start {
  failed = λ n. if n == 1 then 1000 ∷ 1001 ∷ 1002 ∷ 1003 ∷ 1004 ∷ [] else [];
}

record_all-check_rate_limit_example :
    is_some (
      check_rate_limit "login:ann" 1500
        (record_all "login:ann" (1000 ∷ 1001 ∷ 1002 ∷ 1003 ∷ 1004 ∷ []) []))
    ≡ true
unfolding lookup
record_all-check_rate_limit_example =
    record_all-check_rate_limit "login:ann" 1000 1500 (1001 ∷ 1002 ∷ 1003 ∷ 1004 ∷ []) [] refl
      (
        (omega arith, omega arith),
        (
          (omega arith, omega arith),
          ((omega arith, omega arith), ((omega arith, omega arith), tt)),
        ),
      )
      (omega arith) (omega arith, omega arith)

-- Texts that need no trimming and are all well formed.
abbrev texts : Texts
texts = record {
  strip = λ s. s;
  lower = λ s. s;
  chars = λ s. 12;
  matches_username = λ s. true;
  matches_email = λ s. true;
  has_letter = λ s. true;
  has_digit = λ s. true;
}

abbrev accounts : Accounts
accounts = record {
  users =
      record {
        id = 1;
        username = "ann";
        email = "ann@example.org";
        password = "old";
        role = "viewer";
        is_active = true;
      }
      ∷ [];
  tokens = record { id = 1; user_id = 1; token_hash = "h1"; expires_at = 900; used = false } ∷ [];
  sessions = record { user_id = 1; is_active = true } ∷ [];
  next_user = 2;
  next_token = 2;
}

reset_password-Resets_example :
    Resets texts "h1" 100 accounts "new-secret-1"
      (reset_password texts "h1" "new-secret-1" 100 4 accounts)
reset_password-Resets_example = reset_password-Resets texts "h1" "new-secret-1" 100 4 accounts

register-Registers_example :
    Registers accounts (register texts "bob" "bob@example.org" "new-secret-2" "admin" accounts)
register-Registers_example =
    register-Registers texts "bob" "bob@example.org" "new-secret-2" "admin" accounts
