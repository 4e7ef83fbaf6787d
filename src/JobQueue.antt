-- ===== src/JobQueue.antt =====
-- The durable job queue: the `job_queue` table, app/services/job_queue_service.py and the
-- procedures of app/database/procedures.sql that it calls. Times are seconds. Each transaction is a
-- function on the table; what the database's clock reads in it is an argument.
pub mod Worker
pub mod Keys
pub mod Lifecycle
pub mod Statements
pub mod History
pub mod Claims
mod Examples
use inventory_logix_dashboar.Base.{
  ℕ, suc, ◌+◌, ◌*◌, String, Bool, true, false, ◌&&◌, Option, none, some, List, [], ◌∷◌, ◌++◌, ltb,
  leb, ◌==◌, str_eq, if◌then◌else◌, length,
}
use inventory_logix_dashboar.Base.Int.{ℤ}
unfoldable pub use inventory_logix_dashboar.Base.{update_where}

pub data JobStatus : Type 0 where
  pending running completed failed dead : JobStatus

abbrev pub is_pending : JobStatus → Bool
is_pending pending = true
is_pending _ = false

abbrev pub is_running : JobStatus → Bool
is_running running = true
is_running _ = false

-- A Python exception: its class, its text, and whether it is an `OperationalError` or an
-- `InterfaceError` of the database driver.
pub record PyException : Type 0 where
  pub class_name : String
  pub message : String
  pub is_connection_error : Bool

-- `_safe_error` of app/database/etl.py
unfoldable pub safe_error : PyException → String
safe_error e = if e.is_connection_error then e.class_name else e.message

-- A row of `job_queue`; `P` is the type of payloads, `R` that of results.
pub record Job {ℓ} (P R : Type ℓ) : Type ℓ where
  pub id : ℕ
  pub task_name : String
  pub status : JobStatus
  pub attempts : ℕ
  pub max_attempts : ℕ
  pub created_at : ℕ
  pub started_at : Option ℕ
  pub completed_at : Option ℕ
  pub error : Option String
  pub result : Option R
  pub payload : P
  pub priority : ℤ
  pub next_run : ℕ
  pub locked_by : Option String
  pub locked_at : Option ℕ

-- The table, and the next number of its sequence.
pub record Queue {ℓ} (P R : Type ℓ) : Type ℓ where
  pub next_id : ℕ
  pub rows : List (Job P R)

-- What a handler ends with: a result that `json.dumps` takes, or an exception.
pub data Outcome {ℓ} (R : Type ℓ) : Type ℓ where
  returned : R → Outcome R
  raised : PyException → Outcome R

-- `_handlers`
abbrev pub Handlers {ℓ} : Type ℓ → Type ℓ → Type ℓ
Handlers P R = List (String × (P → Outcome R))

module _ {ℓ} {P R : Type ℓ} where
  unfoldable pub find_handler : String → Handlers P R → Option (P → Outcome R)
  find_handler task [] = none
  find_handler task ((name, handler) ∷ rest) =
      if str_eq name task then some handler else find_handler task rest

  add_handler :
      Option (P → Outcome R) → String → (P → Outcome R) → Handlers P R → Option (Handlers P R)
  add_handler (some old) task handler handlers = none
  add_handler none task handler handlers = some (handlers ++ (task, handler) ∷ [])

  -- `register_handler`: `none` is the `ValueError` for a name that is taken.
  unfoldable pub register_handler : String → (P → Outcome R) → Handlers P R → Option (Handlers P R)
  unfolding add_handler
  register_handler task handler handlers =
      add_handler (find_handler task handlers) task handler handlers

  -- `enqueue`, with `job_queue_enqueue`: the id of the new job, and the table with it.
  unfoldable pub enqueue : String → P → ℤ → ℕ → ℕ → ℕ → Queue P R → ℕ × Queue P R
  enqueue task payload priority max_attempts delay_seconds now q =
      let job : Job P R = record {
        id = q.next_id;
        task_name = task;
        status = pending;
        attempts = 0;
        max_attempts = max_attempts;
        created_at = now;
        started_at = none;
        completed_at = none;
        error = none;
        result = none;
        payload = payload;
        priority = priority;
        next_run = (if ltb 0 delay_seconds then now + delay_seconds else now);
        locked_by = none;
        locked_at = none;
      } in
      (q.next_id, record { next_id = suc q.next_id; rows = q.rows ++ job ∷ [] })

  -- `get_status`
  unfoldable pub find_job : ℕ → List (Job P R) → Option (Job P R)
  find_job job_id [] = none
  find_job job_id (row ∷ rows) = if row.id == job_id then some row else find_job job_id rows

  -- `UPDATE ... SET status='running', started_at=now() WHERE id=... AND status='pending'`
  unfoldable pub mark_running : ℕ → ℕ → List (Job P R) → List (Job P R)
  mark_running job_id now =
      update_where (λ row. row.id == job_id && is_pending row.status)
        (λ row. record row { status = running; started_at = some now })

  -- The update that records a result.
  unfoldable pub complete : ℕ → R → ℕ → List (Job P R) → List (Job P R)
  complete job_id result now =
      update_where (λ row. row.id == job_id && is_running row.status)
        (λ row. record row { status = completed; completed_at = some now; result = some result })

  -- The update that buries a job after its last attempt.
  unfoldable pub bury : ℕ → String → ℕ → List (Job P R) → List (Job P R)
  bury job_id text now =
      update_where (λ row. row.id == job_id && is_running row.status)
        (λ row. record row { status = dead; completed_at = some now; error = some text })

  -- The update that sends a job back, later by a minute for each attempt. Its right sides read
  -- the old row.
  unfoldable pub back_off : ℕ → ℕ → List (Job P R) → List (Job P R)
  back_off job_id now =
      update_where (λ row. row.id == job_id && is_running row.status)
        (λ row. record row {
          status = pending;
          attempts = row.attempts + 1;
          next_run = now + 60 * (row.attempts + 1);
        })

  -- What `_execute_job` writes after the handler, for the job as it was read when it was claimed.
  unfoldable pub finish : Outcome R → Job P R → ℕ → List (Job P R) → List (Job P R)
  unfolding complete bury back_off
  finish (returned result) job now rows = complete job.id result now rows
  finish (raised e) job now rows =
      if leb job.max_attempts (job.attempts + 1)
      then bury job.id (safe_error e) now rows
      else back_off job.id now rows

  execute_with : Option (P → Outcome R) → Job P R → ℕ → ℕ → List (Job P R) → Option (List (Job P R))
  execute_with none job started ended rows = none
  execute_with (some handler) job started ended rows =
      some (finish (handler job.payload) job ended (mark_running job.id started rows))

  -- `_execute_job`: `none` is the `ValueError` for a task with no handler, raised before any write.
  unfoldable pub execute_job :
      Handlers P R → Job P R → ℕ → ℕ → List (Job P R) → Option (List (Job P R))
  unfolding execute_with
  execute_job handlers job started ended rows =
      execute_with (find_handler job.task_name handlers) job started ended rows
