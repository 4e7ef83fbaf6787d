-- ===== src/Idempotency.antt =====
-- Idempotency keys: app/utils/idempotency.py with the procedures `sp_idempotency_check`,
-- `sp_idempotency_reserve` and `sp_idempotency_record` of app/database/procedures.sql. A request goes
-- through the decorator in two steps, between which its view runs and other requests may come: `arrive`
-- reserves the key, `settle` records the response or gives the key back.
pub mod Keys
pub mod Exactly
mod Examples
use inventory_logix_dashboar.Base.{
  ℕ, String, Bool, true, false, not, ◌&&◌, ◌||◌, Option, none, some, List, [], ◌∷◌, ◌++◌, ltb, leb,
  ◌==◌, str_eq, if◌then◌else◌, keep_if, update_where, is_some,
}

-- What is stored: the envelope of an API response, or the target of a redirect.
pub data Cached {ℓ} (D : Type ℓ) : Type ℓ where
  envelope : D → ℕ → Option String → Cached D
  redirect_to : String → Cached D

-- A row of `idempotency_keys`
pub record KeyRow {ℓ} (D : Type ℓ) : Type ℓ where
  pub key : String
  pub user_id : ℕ
  pub response : Option (Cached D)

-- The JSON body of a response, as far as it is read.
pub record Body {ℓ} (D : Type ℓ) : Type ℓ where
  pub success : Bool
  pub payload : D
  pub message : Option String

-- What a view ends with: a response, with the body that `get_json` gives, if any, and its `Location`;
-- a value with no `status_code`, such as a text or a pair; or an exception.
pub data ViewResult {ℓ} (D : Type ℓ) : Type ℓ where
  response_of : ℕ → Option (Body D) → Option String → ViewResult D
  plain_value : ViewResult D
  view_raised : ViewResult D

-- What the decorator does with a request.
pub data Decision {ℓ} (D : Type ℓ) : Type ℓ where
  key_required : Decision D
  run_unguarded : Decision D
  unauthorized : Decision D
  run_view : Decision D
  replay : String → Decision D
  replay_raised : Cached D → Decision D
  in_progress : Decision D

-- The statuses of redirects
unfoldable pub is_redirect : ℕ → Bool
is_redirect status =
    status == 301 || (status == 302 || (status == 303 || (status == 307 || status == 308)))

module _ {ℓ} {D : Type ℓ} where
  unfoldable pub is_for : String → ℕ → KeyRow D → Bool
  is_for key user_id row = str_eq row.key key && row.user_id == user_id

  -- The response of the row with this key and user: `none` if there is no row.
  unfoldable pub find_key : String → ℕ → List (KeyRow D) → Option (Option (Cached D))
  find_key key user_id [] = none
  find_key key user_id (row ∷ rows) =
      if is_for key user_id row then some row.response else find_key key user_id rows

  cached_response : Option (Option (Cached D)) → Option (Cached D)
  cached_response none = none
  cached_response (some response) = response

  -- `check_idempotency`
  unfoldable pub check_idempotency : String → ℕ → List (KeyRow D) → Option (Cached D)
  unfolding cached_response
  check_idempotency key user_id rows = cached_response (find_key key user_id rows)

  -- `reserve_idempotency`
  unfoldable pub reserve_idempotency : String → ℕ → List (KeyRow D) → Bool × List (KeyRow D)
  reserve_idempotency key user_id rows =
      if is_some (find_key key user_id rows)
      then (false, rows)
      else (true, rows ++ record { key = key; user_id = user_id; response = none } ∷ [])

  -- `record_idempotency`
  unfoldable pub record_idempotency : String → ℕ → Cached D → List (KeyRow D) → List (KeyRow D)
  record_idempotency key user_id cached rows =
      if is_some (find_key key user_id rows)
      then update_where (is_for key user_id) (λ row. record row { response = some cached }) rows
      else rows ++ record { key = key; user_id = user_id; response = some cached } ∷ []

  -- `release_idempotency`
  unfoldable pub release_idempotency : String → ℕ → List (KeyRow D) → List (KeyRow D)
  release_idempotency key user_id rows =
      keep_if (λ row. not (is_for key user_id row && not (is_some row.response))) rows

  -- A stored redirect is issued again. For a stored envelope `api_response` gives a pair, which has no
  -- headers to set, so the decorator raises.
  unfoldable pub replayed : Cached D → Decision D
  replayed (redirect_to location) = replay location
  replayed (envelope payload status message) = replay_raised (envelope payload status message)

  replay_or_wait : Option (Cached D) → Decision D
  replay_or_wait none = in_progress
  replay_or_wait (some cached) = replayed cached

  reserved_or_taken : Bool × List (KeyRow D) → String → ℕ → Decision D × List (KeyRow D)
  reserved_or_taken (true, rows) key user_id = (run_view, rows)
  reserved_or_taken (false, rows) key user_id =
      (replay_or_wait (check_idempotency key user_id rows), rows)

  -- The decorator up to the view, for a request with a key and a user.
  unfoldable pub arrive : String → ℕ → List (KeyRow D) → Decision D × List (KeyRow D)
  unfolding replayed replay_or_wait reserved_or_taken
  arrive key user_id rows = reserved_or_taken (reserve_idempotency key user_id rows) key user_id

  -- The decorator up to the view.
  unfoldable pub wrapped :
      Bool → Option String → Option ℕ → List (KeyRow D) → Decision D × List (KeyRow D)
  wrapped required none user_id rows = (if required then key_required else run_unguarded, rows)
  wrapped required (some key) none rows = (unauthorized, rows)
  wrapped required (some key) (some user_id) rows = arrive key user_id rows

  unfoldable pub cached_body : ℕ → Option (Body D) → Option (Cached D)
  cached_body status none = none
  cached_body status (some body) =
      if body.success then some (envelope body.payload status body.message) else none

  unfoldable pub cached_redirect : Option String → Option (Cached D)
  cached_redirect none = none
  cached_redirect (some location) = some (redirect_to location)

  -- What of a result is stored, if anything.
  unfoldable pub cacheable : ViewResult D → Option (Cached D)
  cacheable (response_of status body location) =
      if leb 200 status && ltb status 300
      then cached_body status body
      else if is_redirect status
      then cached_redirect location
      else none
  cacheable plain_value = none
  cacheable view_raised = none

  -- The release after the view, where `frees` says whether it succeeds.
  unfoldable pub release_if : Bool → String → ℕ → List (KeyRow D) → List (KeyRow D)
  release_if true key user_id rows = release_idempotency key user_id rows
  release_if false key user_id rows = rows

  -- `saves` says whether `record_idempotency` succeeds; its exceptions are swallowed.
  unfoldable pub store :
      Option (Cached D) → Bool → Bool → String → ℕ → List (KeyRow D) → List (KeyRow D)
  unfolding release_if
  store none saves frees key user_id rows = release_if frees key user_id rows
  store (some cached) saves frees key user_id rows =
      if saves
      then record_idempotency key user_id cached rows
      else release_if frees key user_id rows

  -- The decorator after the view.
  unfoldable pub settle :
      ViewResult D → Bool → Bool → String → ℕ → List (KeyRow D) → List (KeyRow D)
  settle result saves frees key user_id rows = store (cacheable result) saves frees key user_id rows
