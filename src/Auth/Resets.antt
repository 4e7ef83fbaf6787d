-- ===== src/Auth/Resets.antt =====
-- What a reset of a password and a registration leave behind.
use mathlib.Core.List.{Memᴰ}
use inventory_logix_dashboar.Base.{
  ℕ, zero, suc, ◌<◌, ◌⊎◌, sym, eq_iff, ◌≤◌, String, ◌≡◌, refl, Bool, true, false, not, ◌&&◌, Option,
  none, some, List, [], ◌∷◌, ◌++◌, arith, ltb, ◌==◌, str_eq, if◌then◌else◌, any_of, keep_if,
  update_where, Bool-cases, inl, inr, All,
}
use inventory_logix_dashboar.Auth.Accounts.{
  Texts, AccountError, Valid, bad, good, validate_username, validate_email,
  validate_password_strength, Account, ResetToken, Session, Accounts, Answer, refused, wrote,
  interrupted, run_commits, reset_commits, reset_answer, with_valid, add_user, register,
  purge_reset_tokens, find_reset_token, set_password, delete_sessions, consume_reset_token,
  reset_with, reset_password,
}

-- No token of the user is left, none of the user's sessions is active, and the user's rows have the new
-- password, the others what they had.
pub record IsReset (a : Accounts) (user_id : ℕ) (password : String) (after : Accounts)
    : Type 0 where
  pub no_tokens : All (λ (t : ResetToken). (t.user_id == user_id) ≡ false) after.tokens
  pub no_sessions :
      All (λ (s : Session). (s.user_id == user_id && s.is_active) ≡ false) after.sessions
  pub users_written :
      after.users
      ≡ update_where (λ u. u.id == user_id) (λ u. record u { password = password }) a.users

-- A token of the table with this hash, of this user, that is neither used nor expired.
pub record Holds (a : Accounts) (token_hash : String) (now user_id : ℕ) : Type 0 where
  pub token : ResetToken
  pub stored : Memᴰ token a.tokens
  pub hash_is : token.token_hash ≡ token_hash
  pub owner_is : token.user_id ≡ user_id
  pub unused : token.used ≡ false
  pub in_time : now < token.expires_at

-- The users, with the password of the one user replaced.
abbrev pub users_with : ℕ → String → Accounts → List Account
users_with user_id password a =
    update_where (λ u. u.id == user_id) (λ u. record u { password = password }) a.users

-- A strong password.
abbrev pub IsStrong : Texts → String → Type 0
IsStrong t password =
    ((8 ≤ t.chars password) × (t.chars password ≤ 128))
    × ((t.has_letter password ≡ true) × (t.has_digit password ≡ true))

-- A call that is answered had a good token with the hash and a password that has 8 to 128 characters,
-- a letter and a digit, and leaves the tables reset for the token's user. A call that is interrupted
-- had them too, and has changed no row of `users`, or has set the password of the token's user.
unfoldable pub Resets : Texts → String → ℕ → Accounts → String → Answer → Type 0
Resets t token_hash now a password (refused e) = Unit
Resets t token_hash now a password (wrote user_id after) =
    IsReset a user_id password after × Holds a token_hash now user_id × IsStrong t password
Resets t token_hash now a password (interrupted after) =
    (user_id : ℕ) × Holds a token_hash now user_id
    × IsStrong t password
    × ((after.users ≡ a.users) ⊎ (after.users ≡ users_with user_id password a))

purged :
    (user_id : ℕ) (tokens : List ResetToken)
    → All (λ (t : ResetToken). (t.user_id == user_id) ≡ false) (purge_reset_tokens user_id tokens)
unfolding purge_reset_tokens keep_if
purged user_id [] = tt
purged user_id (t ∷ tokens) = elim (Bool-cases (t.user_id == user_id)) [
  | inl own ↦ rw own (purged user_id tokens)
  | inr other ↦ rw other (other, purged user_id tokens)
]

ended :
    (user_id : ℕ) (sessions : List Session)
    → All
        (λ (s : Session). (s.user_id == user_id && s.is_active) ≡ false)
        (delete_sessions user_id sessions)
unfolding delete_sessions update_where
ended user_id [] = tt
ended user_id (s ∷ sessions) = elim (Bool-cases (s.user_id == user_id && s.is_active)) [
  | inl own ↦ rw own (ground arith, ended user_id sessions)
  | inr other ↦ rw other (other, ended user_id sessions)
]

either-Resets :
    (t : Texts) (token_hash : String) (now : ℕ) (a : Accounts) (password : String) (b : Bool)
    (e : AccountError) (y : Answer)
    → (b ≡ false → Resets t token_hash now a password y)
    → Resets t token_hash now a password (if b then refused e else y)
unfolding Resets
either-Resets t token_hash now a password true e y h = tt
either-Resets t token_hash now a password false e y h = h refl

either-valid :
    (t : Texts) (token_hash : String) (now : ℕ) (a : Accounts) (password : String) (b : Bool)
    (e : AccountError) (v : Valid) (go_on : String → Answer)
    → (b ≡ false → Resets t token_hash now a password (with_valid v go_on))
    → Resets t token_hash now a password (with_valid (if b then bad e else v) go_on)
unfolding Resets with_valid
either-valid t token_hash now a password true e v go_on h = tt
either-valid t token_hash now a password false e v go_on h = h refl

flip_false : (b : Bool) → not b ≡ false → b ≡ true
flip_false true h = refl
flip_false false h = cc

found_holds :
    (token_hash : String) (now : ℕ) (r : ResetToken) (tokens : List ResetToken)
    → find_reset_token token_hash now tokens ≡ some r
    → Memᴰ r tokens × ((r.token_hash ≡ token_hash) × ((r.used ≡ false) × (now < r.expires_at)))
unfolding find_reset_token
found_holds token_hash now r [] h = cc
found_holds token_hash now r (t ∷ tokens) h =
    elim (Bool-cases (str_eq t.token_hash token_hash && (not t.used && ltb now t.expires_at))) [
      | inl good_token ↦
          let same : t ≡ r = cc (rw good_token at h) in
          (Memᴰ.head (sym same), rw⁻¹ same ground (arith, eq_iff t.token_hash token_hash))
      | inr other ↦
          let (m, rest) = found_holds token_hash now r tokens (rw other at h) in (Memᴰ.tail m, rest)
    ]

-- What each number of commits leaves.
commits-Resets :
    (t : Texts) (token_hash : String) (now : ℕ) (a : Accounts) (password : String) (commits : ℕ)
    (token : ResetToken)
    → Holds a token_hash now token.user_id
    → IsStrong t password
    → Resets t token_hash now a password
        (reset_answer token.user_id (run_commits commits (reset_commits token password) a))
unfolding Resets reset_answer run_commits reset_commits set_password
commits-Resets t token_hash now a password zero token holds strong =
    (token.user_id, holds, strong, inl refl)
commits-Resets t token_hash now a password (suc zero) token holds strong =
    (token.user_id, holds, strong, inr refl)
commits-Resets t token_hash now a password (suc (suc zero)) token holds strong =
    (token.user_id, holds, strong, inr refl)
commits-Resets t token_hash now a password (suc (suc (suc zero))) token holds strong =
    (token.user_id, holds, strong, inr refl)
commits-Resets t token_hash now a password (suc (suc (suc (suc n)))) token holds strong = (
  record {
    no_tokens = purged token.user_id (consume_reset_token token.id a.tokens);
    no_sessions = ended token.user_id a.sessions;
    users_written = refl;
  },
  holds,
  strong,
)

reset_with-Resets :
    (t : Texts) (token_hash : String) (now : ℕ) (a : Accounts) (password : String) (commits : ℕ)
    (o : Option ResetToken)
    → find_reset_token token_hash now a.tokens ≡ o
    → IsStrong t password
    → Resets t token_hash now a password (reset_with o password now commits a)
unfolding Resets reset_with
reset_with-Resets t token_hash now a password commits none h strong = tt
reset_with-Resets t token_hash now a password commits (some token) h strong =
    let (m, (hash, (unused, in_time))) = found_holds token_hash now token a.tokens h in
    either-Resets t token_hash now a password token.used _ _ λ x.
      either-Resets t token_hash now a password (not (ltb now token.expires_at)) _ _ λ y.
        commits-Resets t token_hash now a password commits token
          (record {
            token = token;
            stored = m;
            hash_is = hash;
            owner_is = refl;
            unused = unused;
            in_time = in_time;
          })
          strong

-- A reset that goes through needs a strong password and the hash of a token that is in the table, is not
-- used and not expired. It sets the password for the user of that token, ends every session of that
-- user and deletes every reset token of that user, so that no link of the user works again. One that the
-- database interrupts between two of its commits needs the same, and changes the password of no other
-- user.
pub reset_password-Resets :
    (t : Texts) (token_hash password : String) (now commits : ℕ) (a : Accounts)
    → Resets t token_hash now a password (reset_password t token_hash password now commits a)
unfolding Resets reset_password with_valid validate_password_strength
reset_password-Resets t token_hash password now commits a =
    either-valid t token_hash now a password (ltb (t.chars password) 8) _ _ _ λ long.
      either-valid t token_hash now a password (ltb 128 (t.chars password)) _ _ _ λ short.
        either-valid t token_hash now a password (not (t.has_letter password)) _ _ _ λ letter.
          either-valid t token_hash now a password (not (t.has_digit password)) _ _ _ λ digit.
            reset_with-Resets t token_hash now a password commits
              (find_reset_token token_hash now a.tokens) refl
              (
                (ground (arith, long), ground (arith, short)),
                (flip_false _ letter, flip_false _ digit),
              )

-- The user who is added is new by name and by email, is a viewer, and no other user changes.
unfoldable pub Registers : Accounts → Answer → Type 0
Registers a (refused e) = Unit
Registers a (interrupted after) = ⊥
Registers a (wrote user_id after) =
    (u : Account) × ((after.users ≡ a.users ++ u ∷ [])
      × ((u.role ≡ "viewer")
          × ((any_of (λ old. str_eq old.username u.username) a.users ≡ false)
              × (any_of (λ old. str_eq old.email u.email) a.users ≡ false))))

either-Registers :
    (a : Accounts) (b : Bool) (e : AccountError) (y : Answer)
    → (b ≡ false → Registers a y)
    → Registers a (if b then refused e else y)
unfolding Registers
either-Registers a true e y h = tt
either-Registers a false e y h = h refl

valid-Registers :
    (a : Accounts) (v : Valid) (go_on : String → Answer)
    → ((s : String) → Registers a (go_on s))
    → Registers a (with_valid v go_on)
unfolding Registers with_valid
valid-Registers a (bad e) go_on h = tt
valid-Registers a (good s) go_on h = h s

add_user-Registers :
    (username email password : String) (a : Accounts)
    → Registers a (add_user username email password a)
unfolding add_user Registers
add_user-Registers username email password a =
    either-Registers a (any_of (λ u. str_eq u.username username) a.users) _ _ λ name.
      either-Registers a (any_of (λ u. str_eq u.email email) a.users) _ _
        λ address. (_, (refl, (refl, (name, address))))

-- Whatever role the caller asks for, a registration that goes through adds one user, a viewer, whose name
-- and email no other user has, and changes no other user.
pub register-Registers :
    (t : Texts) (username email password role : String) (a : Accounts)
    → Registers a (register t username email password role a)
unfolding register
register-Registers t username email password role a =
    valid-Registers a (validate_username t username) _ λ name.
      valid-Registers a (validate_email t email) _ λ address.
        valid-Registers a (validate_password_strength t password) _
          λ secret. add_user-Registers name address secret a
