-- ===== src/Tracker/Examples.antt =====
-- Concrete runs of the job tracker.
use inventory_logix_dashboar.Base.{
  ℕ, ◌+◌, ◌*◌, ◌/◌, min, String, ◌≡◌, refl, not, none, some, List, [], ◌∷◌, arith, length, keep_if,
}
use inventory_logix_dashboar.Base.Dict.{lookup}
use inventory_logix_dashboar.Tracker.{running, completed, Job, Jobs, cleanup_old_jobs}
use inventory_logix_dashboar.Tracker.Progress.{
  Call, create, progress, succeed, perform_all, AllSound, perform_all-AllSound,
}
use inventory_logix_dashboar.Tracker.Clean.{may_go, cleanup_old_jobs_lem}

-- The percentage, rounded down, for a total that is not 0.
abbrev percent : ℕ → ℕ → ℕ
percent a b = min 100 (100 * a / b)

abbrev failure_text : String → String
failure_text error = error

abbrev calls : List (Call ℕ ℕ)
calls = create "j" "export" 1 100 [] 5 ∷ progress "j" 30 "rows" [] 6 ∷ succeed "j" (some 4) 7 ∷ []

perform_all-AllSound_example : AllSound (perform_all percent failure_text calls [])
perform_all-AllSound_example =
    perform_all-AllSound percent (λ a b h k. omega arith) failure_text calls [] tt

abbrev done : Job ℕ ℕ
done = record {
  job_type = "export";
  user_id = 1;
  status = completed;
  progress = 100;
  current_step = 100;
  total_steps = 100;
  message = "Job completed successfully";
  result = some 4;
  error = none;
  metadata = [];
  created_at = 5;
  updated_at = 7;
  started_at = some 6;
  completed_at = some 7;
}

abbrev jobs : Jobs ℕ ℕ
jobs = ("a", done) ∷ ("b", record done { status = running }) ∷ []

cleanup_old_jobs_lem_example :
    ((cleanup_old_jobs 24 90000 jobs).1 ≡ keep_if (λ e. not (may_go 24 90000 e.1)) jobs)
    × ((cleanup_old_jobs 24 90000 jobs).0 + length (cleanup_old_jobs 24 90000 jobs).1 ≡ 2)
unfolding lookup
cleanup_old_jobs_lem_example = cleanup_old_jobs_lem 24 90000 jobs (refl, (refl, tt))
