-- ===== src/Connection.antt =====
-- app/database/connection.py: the connection of a request, the cursor that retries its first call once, and
-- the block of `get_cursor`. Each use of the server takes the next entry of a schedule of failures; a
-- call that raises has done nothing, and a commit that raises has committed nothing. The times of
-- checkouts, which only monitoring reads, and the recycling of old connections are left out.
pub mod Calls
pub mod Atomic
mod Examples
use inventory_logix_dashboar.Base.{
  ℕ, ◌+◌, Bool, true, false, Option, none, some, List, [], ◌∷◌, ◌++◌, if◌then◌else◌,
}

-- The classes of exceptions that the code tells apart.
pub data DbError : Type 0 where
  interface_error operational_error query_canceled pool_error other_error : DbError

-- What the statements of a block are: the setting of `app.current_user_id`, or the caller's.
pub data Statement {ℓ} (S : Type ℓ) : Type ℓ where
  set_user : Option ℕ → Statement S
  run : S → Statement S

-- A step of the block's body: a statement, or an exception of the caller's own.
pub data Step {ℓ} (S : Type ℓ) : Type ℓ where
  execute : S → Step S
  throw : DbError → Step S

-- `conn` is `g.db`, `pending` its open transaction; `next_conn` numbers what the pool makes. `alert_rows`
-- counts the alerts of an exhausted pool, and `alert_unresolved` says that one of them is not resolved.
pub record Request {ℓ} (S : Type ℓ) : Type ℓ where
  pub committed : List (Statement S)
  pub pending : List (Statement S)
  pub conn : Option ℕ
  pub next_conn : ℕ
  pub alert_rows : ℕ
  pub alert_unresolved : Bool
  pub faults : List (Option DbError)

-- How a call ends: `none`, or the exception.
abbrev pub Result {ℓ} : Type ℓ → Type ℓ
Result S = Option DbError × Request S

-- `except (InterfaceError, OperationalError)`, but for a cancelled query
unfoldable pub is_stale : DbError → Bool
is_stale interface_error = true
is_stale operational_error = true
is_stale query_canceled = false
is_stale pool_error = false
is_stale other_error = false

module _ {ℓ} {S : Type ℓ} where
  abbrev pub and_then : Result S → (Request S → Result S) → Result S
  and_then (none, w) k = k w
  and_then (some e, w) k = (some e, w)

  -- Take the next entry of the schedule; past its end nothing fails.
  abbrev pub use_server : List (Option DbError) → (Request S → Request S) → Request S → Result S
  use_server [] f w = (none, f w)
  use_server (none ∷ faults) f w = (none, f (record w { faults = faults }))
  use_server (some e ∷ faults) f w = (some e, record w { faults = faults })

  abbrev pub add_pending : Statement S → Request S → Request S
  add_pending s w = record w { pending = w.pending ++ s ∷ [] }

  -- A call of the cursor's own `execute`
  unfoldable pub call : Statement S → Request S → Result S
  call s w = use_server w.faults (add_pending s) w

  unfoldable pub rollback : Request S → Request S
  rollback w = record w { pending = [] }

  abbrev pub all_committed : Request S → Request S
  all_committed w = record w { committed = w.committed ++ w.pending; pending = [] }

  unfoldable pub commit : Request S → Result S
  commit w = use_server w.faults all_committed w

  abbrev pub new_conn : Request S → Request S
  new_conn w = record w { pending = []; conn = some w.next_conn; next_conn = w.next_conn + 1 }

  -- `pool.getconn()`
  unfoldable pub checkout : Request S → Result S
  checkout w = use_server w.faults new_conn w

  abbrev pub add_alert : Request S → Request S
  add_alert w = record w {
    alert_rows = if w.alert_unresolved then w.alert_rows else w.alert_rows + 1;
    alert_unresolved = true;
  }

  -- `_alert_pool_exhausted`, on a connection of its own: its exceptions are swallowed.
  unfoldable pub alert_pool_exhausted : Request S → Request S
  alert_pool_exhausted w = (use_server w.faults add_alert w).1

  -- `except PoolError: _alert_pool_exhausted(); raise`
  unfoldable pub alerted : Result S → Result S
  unfolding alert_pool_exhausted
  alerted (none, w) = (none, w)
  alerted (some pool_error, w) = (some pool_error, alert_pool_exhausted w)
  alerted (some interface_error, w) = (some interface_error, w)
  alerted (some operational_error, w) = (some operational_error, w)
  alerted (some query_canceled, w) = (some query_canceled, w)
  alerted (some other_error, w) = (some other_error, w)

  connect_if : Option ℕ → Request S → Result S
  unfolding checkout alerted
  connect_if none w = alerted (checkout w)
  connect_if (some n) w = (none, w)

  -- `get_connection`
  unfoldable pub get_connection : Request S → Result S
  unfolding connect_if
  get_connection w = connect_if w.conn w

  -- The stale connection is rolled back and closed, and the call made again on a fresh one.
  unfoldable pub retry : Statement S → DbError → Request S → Result S
  unfolding checkout call rollback
  retry s e w = if is_stale e then and_then (checkout (rollback w)) (call s) else (some e, w)

  unfoldable pub retry_after : Statement S → Result S → Result S
  unfolding retry
  retry_after s (none, w) = (none, w)
  retry_after s (some e, w) = retry s e w

  -- `_maybe_retry`, for the first call of the cursor; later calls are made as they are.
  unfoldable pub first_call : Statement S → Request S → Result S
  unfolding retry_after
  first_call s w = retry_after s (call s w)

  -- The body of the block, whose calls are no longer the first
  unfoldable pub body : List (Step S) → Request S → Result S
  unfolding call
  body [] w = (none, w)
  body (execute s ∷ steps) w = and_then (call (run s) w) (body steps)
  body (throw e ∷ steps) w = (some e, w)

  unfoldable pub commit_if : Bool → Request S → Result S
  unfolding commit
  commit_if true w = commit w
  commit_if false w = (none, w)

  -- `except Exception: proxy._conn.rollback(); raise`
  unfoldable pub guarded : Result S → Result S
  unfolding rollback
  guarded (none, w) = (none, w)
  guarded (some e, w) = (some e, rollback w)

  -- `with get_cursor(commit) as cur: body`, for the user of the request
  unfoldable pub with_cursor : Option ℕ → Bool → List (Step S) → Request S → Result S
  unfolding get_connection first_call body commit_if guarded
  with_cursor user commits steps w = and_then (get_connection w) (λ v.
      guarded (and_then (and_then (first_call (set_user user) v) (body steps)) (commit_if commits)))
