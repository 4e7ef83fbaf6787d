-- ===== src/Tracker.antt =====
-- app/services/job_tracker.py: the in-process tracker that web requests poll for the progress of a
-- job. A job is made with an id from `uuid.uuid4()`, and each call reads the clock as `now`; both are
-- arguments. The step counts are those of the callers, which count up from 0.
pub mod Progress
pub mod Clean
mod Examples
use inventory_logix_dashboar.Base.{
  ℕ, ◌+◌, ◌*◌, String, Bool, true, false, not, ◌&&◌, ◌||◌, Option, none, some, List, [], ◌∷◌, map,
  max, ltb, leb, ◌==◌, str_eq, if◌then◌else◌, length, keep_if,
}
use inventory_logix_dashboar.Base.Dict.{OrderedDict, lookup, assign, remove}

pub data Status : Type 0 where
  pending running completed failed : Status

abbrev pub same_status : Status → Status → Bool
same_status pending pending = true
same_status running running = true
same_status completed completed = true
same_status failed failed = true
same_status _ _ = false

-- The values of `_jobs`; `R` is the type of results, `M` that of the metadata's values.
pub record Job {ℓ} (R M : Type ℓ) : Type ℓ where
  pub job_type : String
  pub user_id : ℕ
  pub status : Status
  pub progress : ℕ
  pub current_step : ℕ
  pub total_steps : ℕ
  pub message : String
  pub result : Option R
  pub error : Option String
  pub metadata : OrderedDict M
  pub created_at : ℕ
  pub updated_at : ℕ
  pub started_at : Option ℕ
  pub completed_at : Option ℕ

-- `_jobs`
abbrev pub Jobs {ℓ} : Type ℓ → Type ℓ → Type ℓ
Jobs R M = OrderedDict (Job R M)

-- `d.update(more)`
unfoldable pub update {ℓ} : {V : Type ℓ} → OrderedDict V → OrderedDict V → OrderedDict V
update [] d = d
update ((k, v) ∷ more) d = update more (assign k v d)

-- `for k in keys: del d[k]`
unfoldable pub remove_all {ℓ} : {V : Type ℓ} → List String → OrderedDict V → OrderedDict V
remove_all [] d = d
remove_all (k ∷ keys) d = remove_all keys (remove k d)

started_from : Option ℕ → ℕ → Option ℕ
started_from none now = some now
started_from (some t) now = some t

module _ {ℓ} {R M : Type ℓ} where
  -- `create_job`, with the id that `uuid.uuid4()` gave
  unfoldable pub create_job :
      String → String → ℕ → ℕ → OrderedDict M → ℕ → Jobs R M → String × Jobs R M
  create_job job_id job_type user_id total_steps metadata now jobs =
      let job : Job R M = record {
        job_type = job_type;
        user_id = user_id;
        status = pending;
        progress = 0;
        current_step = 0;
        total_steps = total_steps;
        message = "Job created";
        result = none;
        error = none;
        metadata = metadata;
        created_at = now;
        updated_at = now;
        started_at = none;
        completed_at = none;
      } in
      (job_id, assign job_id job jobs)

  -- `get_job`
  unfoldable pub get_job : String → Jobs R M → Option (Job R M)
  get_job job_id jobs = lookup job_id jobs

  -- The assignments of `update_progress`; `percent a b` is `int((a / b) * 100)`, in floats.
  unfoldable pub advance : (ℕ → ℕ → ℕ) → ℕ → String → OrderedDict M → ℕ → Job R M → Job R M
  unfolding started_from
  advance percent current_step message metadata now job =
      let total = max job.total_steps current_step in
      record job {
        current_step = current_step;
        total_steps = total;
        progress = (if ltb 0 total then percent current_step total else 0);
        status = running;
        message = message;
        updated_at = now;
        started_at = started_from job.started_at now;
        metadata = update metadata job.metadata;
      }

  -- The assignments of `complete_job`
  unfoldable pub complete : Option R → ℕ → Job R M → Job R M
  complete result now job = record job {
    status = completed;
    progress = 100;
    current_step = job.total_steps;
    result = result;
    completed_at = some now;
    updated_at = now;
    message = "Job completed successfully";
  }

  -- The assignments of `fail_job`; `failure_text error` is its message.
  unfoldable pub fail : (String → String) → String → ℕ → Job R M → Job R M
  fail failure_text error now job = record job {
    status = failed;
    error = some error;
    completed_at = some now;
    updated_at = now;
    message = failure_text error;
  }

  write_found : Option (Job R M) → (Job R M → Job R M) → String → Jobs R M → Bool × Jobs R M
  write_found none f job_id jobs = (false, jobs)
  write_found (some job) f job_id jobs = (true, assign job_id (f job) jobs)

  -- What the three share: the job is looked up and written in place, or the answer is `False`.
  unfoldable pub write : (Job R M → Job R M) → String → Jobs R M → Bool × Jobs R M
  unfolding write_found
  write f job_id jobs = write_found (lookup job_id jobs) f job_id jobs

  unfoldable pub update_progress :
      (ℕ → ℕ → ℕ) → String → ℕ → String → OrderedDict M → ℕ → Jobs R M → Bool × Jobs R M
  update_progress percent job_id current_step message metadata now =
      write (advance percent current_step message metadata now) job_id

  unfoldable pub complete_job : String → Option R → ℕ → Jobs R M → Bool × Jobs R M
  complete_job job_id result now = write (complete result now) job_id

  unfoldable pub fail_job : (String → String) → String → String → ℕ → Jobs R M → Bool × Jobs R M
  fail_job failure_text job_id error now = write (fail failure_text error now) job_id

  cleanup_found : Option (Job R M) → String → Jobs R M → Bool × Jobs R M
  cleanup_found none job_id jobs = (false, jobs)
  cleanup_found (some job) job_id jobs = (true, remove job_id jobs)

  unfoldable pub cleanup_job : String → Jobs R M → Bool × Jobs R M
  unfolding cleanup_found
  cleanup_job job_id jobs = cleanup_found (lookup job_id jobs) job_id jobs

  -- The rows that `cleanup_old_jobs` deletes, when it reads the clock as `now`, in seconds.
  unfoldable pub is_old : ℕ → ℕ → Job R M → Bool
  is_old max_age_hours now job =
      ltb (job.created_at + 3600 * max_age_hours) now
      && (same_status job.status completed || same_status job.status failed)

  unfoldable pub cleanup_old_jobs : ℕ → ℕ → Jobs R M → ℕ × Jobs R M
  cleanup_old_jobs max_age_hours now jobs =
      let to_delete = map (λ e. e.0) (keep_if (λ e. is_old max_age_hours now e.1) jobs) in
      (length to_delete, remove_all to_delete jobs)
