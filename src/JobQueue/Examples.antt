-- ===== src/JobQueue/Examples.antt =====
-- Concrete runs of the job queue.
use mathlib.Core.List.{Memᴰ}
use inventory_logix_dashboar.Base.{
  ℕ, ◌+◌, ◌≡◌, refl, Bool, false, none, List, [], ◌∷◌, arith, keep_if, any_of,
}
use inventory_logix_dashboar.Base.Int.{pos}
use inventory_logix_dashboar.JobQueue.{pending, Job, Queue, returned, Handlers}
use inventory_logix_dashboar.JobQueue.Worker.{
  claim_jobs, select_due, is_due, is_claimed, sort_jobs, insert_job,
}
use inventory_logix_dashboar.JobQueue.Claims.{claims_disjoint}
use inventory_logix_dashboar.JobQueue.Lifecycle.{Extends}
use inventory_logix_dashboar.JobQueue.History.{
  Event, enqueued, requeued, claimed, executed, perform_all, IsNumbered, perform_all-Extends,
}

abbrev report : Job ℕ ℕ
report = record {
  id = 1;
  task_name = "report";
  status = pending;
  attempts = 0;
  max_attempts = 3;
  created_at = 10;
  started_at = none;
  completed_at = none;
  error = none;
  result = none;
  payload = 5;
  priority = pos 0;
  next_run = 10;
  locked_by = none;
  locked_at = none;
}

abbrev mail : Job ℕ ℕ
mail = record report { id = 2; task_name = "mail"; priority = pos 4; next_run = 500 }

abbrev table : List (Job ℕ ℕ)
table = report ∷ mail ∷ []

abbrev no_locks : ℕ → Bool
no_locks n = false

claims_disjoint_example :
    is_claimed (select_due no_locks 10 101 (claim_jobs no_locks "w1" 10 100 table).1) report ≡ false
unfolding is_claimed claim_jobs select_due sort_jobs insert_job is_due keep_if any_of
claims_disjoint_example =
    claims_disjoint no_locks no_locks "w1" 10 10 100 101 table report ((refl, tt), (tt, tt))
      (Memᴰ.head refl) refl

abbrev handlers : Handlers ℕ ℕ
handlers = ("report", λ n. returned (n + 1)) ∷ []

abbrev queue : Queue ℕ ℕ
queue = record { next_id = 3; rows = table }

abbrev events : List (Event ℕ ℕ)
events =
    enqueued "report" 8 (pos 1) 3 0 90
    ∷ claimed no_locks "w1" 10 100
    ∷ executed handlers report 101 102
    ∷ requeued 900
    ∷ []

queue-IsNumbered : IsNumbered queue
queue-IsNumbered = record {
  keyed = ((refl, tt), (tt, tt));
  below = (omega arith, (omega arith, tt));
}

perform_all-Extends_example : Extends table (perform_all events queue).rows
perform_all-Extends_example = perform_all-Extends events queue queue-IsNumbered
