-- ===== src/JobQueue/Worker.antt =====
-- app/worker.py: the poll loop that requeues stale rows, claims due jobs and executes them.
use inventory_logix_dashboar.Base.{
  ℕ, ◌+◌, String, Bool, false, not, ◌&&◌, ◌||◌, Option, none, some, List, [], ◌∷◌, ltb, leb, ◌==◌,
  if◌then◌else◌, length, take, keep_if, any_of,
}
use inventory_logix_dashboar.Base.Int.{ltb_ℤ}
use inventory_logix_dashboar.JobQueue.{
  pending, running, dead, is_pending, is_running, Handlers, Job, update_where, execute_job,
}

abbrev pub stale_minutes : ℕ
stale_minutes = 10

abbrev pub batch_size : ℕ
batch_size = 10

abbrev pub stale_error : String
stale_error = "stale: running exceeded 10 minutes"

-- `started_at < now() - interval '10 minutes'`; false where `started_at` is null.
abbrev pub started_before : Option ℕ → ℕ → Bool
started_before none now = false
started_before (some t) now = ltb (t + 600) now

module _ {ℓ} {P R : Type ℓ} where
  -- The assignments of `requeue_stale`, which all read the old row.
  unfoldable pub requeue_row : ℕ → Job P R → Job P R
  requeue_row now row =
      let exhausted = leb row.max_attempts (row.attempts + 1) in
      record row {
        status = (if exhausted then dead else pending);
        attempts = row.attempts + 1;
        next_run = now;
        locked_by = none;
        locked_at = none;
        error = (if exhausted then some stale_error else row.error);
        completed_at = (if exhausted then some now else row.completed_at);
      }

  unfoldable pub is_stale : ℕ → Job P R → Bool
  is_stale now row = is_running row.status && started_before row.started_at now

  unfoldable pub requeue_stale : ℕ → List (Job P R) → List (Job P R)
  unfolding requeue_row is_stale
  requeue_stale now = update_where (is_stale now) (requeue_row now)

  -- `ORDER BY priority DESC, created_at`
  unfoldable pub runs_before : Job P R → Job P R → Bool
  runs_before a b =
      ltb_ℤ b.priority a.priority
      || (not (ltb_ℤ a.priority b.priority) && leb a.created_at b.created_at)

  unfoldable pub insert_job : Job P R → List (Job P R) → List (Job P R)
  insert_job a [] = a ∷ []
  insert_job a (b ∷ bs) = if runs_before a b then a ∷ b ∷ bs else b ∷ insert_job a bs

  unfoldable pub sort_jobs : List (Job P R) → List (Job P R)
  sort_jobs [] = []
  sort_jobs (a ∷ rows) = insert_job a (sort_jobs rows)

  -- The rows that the `SELECT ... FOR UPDATE SKIP LOCKED` may return; `held` are the rows that
  -- other transactions have locked.
  unfoldable pub is_due : (ℕ → Bool) → ℕ → Job P R → Bool
  is_due held now row = is_pending row.status && leb row.next_run now && not (held row.id)

  unfoldable pub select_due : (ℕ → Bool) → ℕ → ℕ → List (Job P R) → List (Job P R)
  unfolding is_due
  select_due held limit now rows = take limit (sort_jobs (keep_if (is_due held now) rows))

  -- `id = ANY(ids)`
  unfoldable pub is_claimed : List (Job P R) → Job P R → Bool
  is_claimed jobs row = any_of (λ job. row.id == job.id) jobs

  unfoldable pub claim_row : String → ℕ → Job P R → Job P R
  claim_row worker now row = record row {
    status = running;
    locked_by = some worker;
    locked_at = some now;
    started_at = some now;
  }

  -- `claim_jobs`: the jobs as they were read, and the table after the update.
  unfoldable pub claim_jobs :
      (ℕ → Bool) → String → ℕ → ℕ → List (Job P R) → List (Job P R) × List (Job P R)
  claim_jobs held worker limit now rows =
      let jobs = select_due held limit now rows in
      (jobs, update_where (is_claimed jobs) (claim_row worker now) rows)

  unfoldable pub after_job : Option (List (Job P R)) → List (Job P R) → List (Job P R)
  after_job none rows = rows
  after_job (some rows') rows = rows'

  -- The loop of `tick`: an exception of a job is logged and swallowed. `clock` gives the times at
  -- which a job is started and ended.
  unfoldable pub execute_all :
      Handlers P R → (ℕ → ℕ × ℕ) → List (Job P R) → List (Job P R) → List (Job P R)
  unfolding after_job
  execute_all handlers clock [] rows = rows
  execute_all handlers clock (job ∷ jobs) rows =
      let (started, ended) = clock job.id in
      execute_all handlers clock jobs (after_job (execute_job handlers job started ended rows) rows)

  -- `tick`: the number of jobs claimed, and the table.
  unfoldable pub tick :
      Handlers P R → (ℕ → Bool) → String → ℕ → ℕ → (ℕ → ℕ × ℕ) → List (Job P R) → ℕ × List (Job P R)
  tick handlers held worker limit now clock rows =
      let (jobs, claimed) = claim_jobs held worker limit now (requeue_stale now rows) in
      (length jobs, execute_all handlers clock jobs claimed)
