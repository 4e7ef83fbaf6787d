-- ===== src/Etl/Session.antt =====
-- app/database/etl.py, the connection of `run_etl` and one of its stages. A connection is a pair of the
-- committed tables and those of the open transaction; each use of the database takes the next entry of
-- a schedule, which lets it raise an exception before it changes anything.
use inventory_logix_dashboar.Base.{ℕ, String, Bool, false, Option, none, some, List, [], ◌∷◌}
use inventory_logix_dashboar.JobQueue.{PyException, Outcome, returned, raised}
use inventory_logix_dashboar.Etl.{retry_operation, write_state}
use inventory_logix_dashboar.Etl.Dims.{Tables}

-- Only this run writes: requests that write movements while it runs are not modelled, nor what a later stage
-- would then read. `is_locked` says that another run holds the advisory lock.
pub record World : Type 0 where
  pub committed : Tables
  pub working : Tables
  pub faults : List (Option PyException)
  pub is_locked : Bool

abbrev pub M : Type 0 → Type 0
M A = World → Outcome A × World

abbrev pub then_do : {A B : Type 0} → (A → M B) → Outcome A × World → Outcome B × World
then_do k (returned a, w) = k a w
then_do k (raised e, w) = (raised e, w)

infixl 5 ◌>>=◌ ◌>>◌
abbrev pub ◌>>=◌ : {A B : Type 0} → M A → (A → M B) → M B
◌>>=◌ m k w = then_do k (m w)

abbrev pub ◌>>◌ : {A B : Type 0} → M A → M B → M B
m >> k = m >>= λ _. k

abbrev pub pure : {A : Type 0} → A → M A
pure a w = (returned a, w)

-- Take the next entry of the schedule; past its end nothing fails.
abbrev pub next_fault : {A : Type 0} → List (Option PyException) → M A → M A
next_fault [] k w = k w
next_fault (none ∷ faults) k w = k (record w { faults = faults })
next_fault (some e ∷ faults) k w = (raised e, record w { faults = faults })

abbrev pub settle_op : {A : Type 0} → World → Outcome (A × Tables) → Outcome A × World
settle_op w (returned (a, t)) = (returned a, record w { working = t })
settle_op w (raised e) = (raised e, w)

-- One use of the database on the open transaction
unfoldable pub use_db : {A : Type 0} → (Tables → Outcome (A × Tables)) → M A
use_db op w = next_fault w.faults (λ (v : World). settle_op v (op v.working)) w

-- `conn.commit()`
unfoldable pub commit : M (Unit {0})
commit w = next_fault w.faults (λ (v : World). (returned tt, record v { committed = v.working })) w

-- `conn.rollback()`, whose own errors are dropped
unfoldable pub rollback : World → World
rollback w = record w { working = w.committed }

abbrev pub fallen : {A : Type 0} → PyException → Option (Outcome A) → Outcome A
fallen e none = raised e
fallen e (some o) = o

abbrev pub never_ran : PyException
never_ran = record { class_name = ""; message = ""; is_connection_error = false }

-- `_retry_operation(operation)` with its defaults; with three retries it never falls out of its loop.
unfoldable pub with_retry : {A : Type 0} → M A → M A
with_retry op w = let r = retry_operation op 3 1 10 w in (fallen never_ran r.outcome, r.world)

abbrev pub rolled_back : {A : Type 0} → Outcome A × World → Outcome A × World
rolled_back (returned a, w) = (returned a, w)
rolled_back (raised e, w) = (raised e, rollback w)

unfoldable pub set_state : String → ℕ → Tables → Outcome (Unit {0} × Tables)
set_state key value t = returned (tt, record t { etl_state = write_state key value t.etl_state })

unfoldable pub stage_body : {A : Type 0} → (Tables → Outcome (A × Tables)) → ℕ → M A
unfolding with_retry set_state
stage_body op id = do
  a ← with_retry (use_db op)
  use_db (set_state "last_movement_id" id)
  commit
  pure a

-- A stage: the operation with retries, the watermark, the commit; and a rollback if any of them raises.
unfoldable pub stage : {A : Type 0} → (Tables → Outcome (A × Tables)) → ℕ → M A
unfolding rollback stage_body
stage op id w = rolled_back (stage_body op id w)
