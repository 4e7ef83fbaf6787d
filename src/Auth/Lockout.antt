-- ===== src/Auth/Lockout.antt =====
-- What the lockout of app/services/auth_service.py guarantees.
use inventory_logix_dashboar.Base.{
  ℕ, ◌+◌, ◌≤◌, String, ◌≡◌, refl, sym, Bool, true, false, not, Option, none, some, List, [], ◌∷◌,
  arith, ltb, leb, ◌==◌, if◌then◌else◌, length, length-append, Bool-cases, Option-cases, inl, inr,
}
use inventory_logix_dashboar.Auth.{
  User, AuthState, LoginResult, check_rate_limit, put_failed, Gate, closed, passed, first_gate,
  locked_out, verified, second_gate, gated, with_hash, authenticate,
}

-- A login, with what the environment answers.
pub record Attempt : Type 0 where
  pub user : Option User
  pub key : String
  pub password : String
  pub now : ℕ

unfoldable pub attempt_all : (String → String → Bool) → List Attempt → AuthState → AuthState
attempt_all verify [] st = st
attempt_all verify (a ∷ attempts) st =
    attempt_all verify attempts (authenticate verify a.user a.key a.password a.now st).1

-- No user has more than five failed attempts on record.
abbrev pub IsBounded : AuthState → Type 0
IsBounded st = (uid : ℕ) → length (st.failed uid) ≤ 5

-- The attempts that a gate lets through are fewer than five.
gate_short :
    (entries : List ℕ) (now : ℕ) (kept : List ℕ)
    → first_gate entries now ≡ passed kept
    → length kept ≤ 4
unfolding first_gate
gate_short [] now kept h = let e : [] ≡ kept = cc h in rw (sym e) (omega arith)
gate_short (first ∷ entries) now kept h = elim (Bool-cases (ltb (first + 900) now)) [
  | inl elapsed ↦ let e : [] ≡ kept = cc (rw elapsed at h) in rw (sym e) (omega arith)
  | inr recent ↦ elim (Bool-cases (leb 5 (length (first ∷ entries)))) [
    | inl full ↦ cc (rw (recent, full) at h)
    | inr short ↦
        let e : (first ∷ entries) ≡ kept = cc (rw (recent, short) at h) in
        rw (sym e) (ground (arith, short))
  ]
]

put-IsBounded :
    (uid : ℕ) (entries : List ℕ) (failed : ℕ → List ℕ)
    → length entries ≤ 5
    → ((n : ℕ) → length (failed n) ≤ 5)
    → (n : ℕ) → length (put_failed uid entries failed n) ≤ 5
unfolding put_failed
put-IsBounded uid entries failed h k n = elim (Bool-cases (n == uid)) [
  | inl same ↦ rw same h
  | inr other ↦ rw other (k n)
]

put_self :
    (uid : ℕ) (entries : List ℕ) (failed : ℕ → List ℕ) → put_failed uid entries failed uid ≡ entries
unfolding put_failed
put_self uid entries failed = ground arith

verified-IsBounded :
    (ok : Bool) (user : User) (key : String) (now : ℕ) (st : AuthState)
    → length (st.failed user.id) ≤ 4
    → IsBounded st
    → IsBounded (verified ok user key now st).1
unfolding verified
verified-IsBounded true user key now st short h n =
    put-IsBounded user.id [] st.failed (omega arith) h n
verified-IsBounded false user key now st short h n =
    put-IsBounded user.id _ st.failed (omega (arith, length-append (st.failed user.id) (now ∷ [])))
      h n

gated-IsBounded :
    (gate : Gate) (ok : Bool) (user : User) (key : String) (now : ℕ) (st : AuthState)
    → first_gate (st.failed user.id) now ≡ gate
    → IsBounded st
    → IsBounded (gated gate ok user key now st).1
unfolding gated locked_out second_gate
gated-IsBounded (closed minutes) ok user key now st e h = h
gated-IsBounded (passed kept) ok user key now st e h =
    let short = gate_short (st.failed user.id) now kept e in
    let st' : AuthState = record st { failed = put_failed user.id kept st.failed } in
    let h' = put-IsBounded user.id kept st.failed (omega (arith, short)) h in
    elim (Option-cases (check_rate_limit key now st.rates)) [
      | inl free ↦
          rw free
            (verified-IsBounded ok user key now st' (rw (put_self user.id kept st.failed) short) h')
      | inr (minutes, shut) ↦ rw shut h'
    ]

with_hash-IsBounded :
    (hash : Option String) (verify : String → String → Bool) (user : User) (key password : String)
    (now : ℕ) (st : AuthState)
    → IsBounded st
    → IsBounded (with_hash hash verify user key password now st).1
unfolding with_hash
with_hash-IsBounded none verify user key password now st h = h
with_hash-IsBounded (some hash) verify user key password now st h =
    gated-IsBounded (first_gate (st.failed user.id) now) (verify password hash) user key now st refl
      h

either-IsBounded :
    (b : Bool) (x y : LoginResult × AuthState)
    → IsBounded x.1
    → IsBounded y.1
    → IsBounded (if b then x else y).1
either-IsBounded true x y h k = h
either-IsBounded false x y h k = k

authenticate-IsBounded :
    (verify : String → String → Bool) (user : Option User) (key password : String) (now : ℕ)
    (st : AuthState)
    → IsBounded st
    → IsBounded (authenticate verify user key password now st).1
unfolding authenticate
authenticate-IsBounded verify none key password now st h = h
authenticate-IsBounded verify (some user) key password now st h =
    either-IsBounded (not user.is_active) _ _ h
      (with_hash-IsBounded user.password_hash verify user key password now st h)

-- If it is so at first: whatever logins come in, for any users, names, passwords and times: no user ever has more than five
-- failed attempts on record in a worker process.
pub attempt_all-IsBounded :
    (verify : String → String → Bool) (attempts : List Attempt) (st : AuthState)
    → IsBounded st
    → IsBounded (attempt_all verify attempts st)
unfolding attempt_all
attempt_all-IsBounded verify [] st h = h
attempt_all-IsBounded verify (a ∷ attempts) st h =
    attempt_all-IsBounded verify attempts (authenticate verify a.user a.key a.password a.now st).1
      (authenticate-IsBounded verify a.user a.key a.password a.now st h)
