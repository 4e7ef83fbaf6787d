-- ===== src/Tracker/Progress.antt =====
-- The progress that app/services/job_tracker.py reports: within bounds after every call.
use inventory_logix_dashboar.Base.{
  ℕ, ◌≤◌, String, ◌≡◌, ◌⊎◌, refl, false, Option, some, List, [], ◌∷◌, arith, max, ltb, Bool-cases,
  Option-cases, inl, inr, All, str_eq,
}
use inventory_logix_dashboar.Base.Dict.{OrderedDict, lookup, assign, remove}
use inventory_logix_dashboar.Tracker.{
  completed, same_status, Job, Jobs, create_job, update_progress, complete_job, fail_job,
  cleanup_job, cleanup_old_jobs, remove_all, write, write_found, advance, complete, fail,
  cleanup_found,
}

-- A call that writes the tracker; the last number is what the clock reads.
pub data Call {ℓ} (R M : Type ℓ) : Type ℓ where
  create : String → String → ℕ → ℕ → OrderedDict M → ℕ → Call R M
  progress : String → ℕ → String → OrderedDict M → ℕ → Call R M
  succeed : String → Option R → ℕ → Call R M
  give_up : String → String → ℕ → Call R M
  forget : String → Call R M
  forget_old : ℕ → ℕ → Call R M

-- `percent` and `failure_text` are as in `update_progress` and `fail_job`.
module _ {ℓ} {R M : Type ℓ} (percent : ℕ → ℕ → ℕ) (failure_text : String → String) where
  unfoldable pub perform : Call R M → Jobs R M → Jobs R M
  perform (create job_id job_type user_id total metadata now) jobs =
      (create_job job_id job_type user_id total metadata now jobs).1
  perform (progress job_id current message metadata now) jobs =
      (update_progress percent job_id current message metadata now jobs).1
  perform (succeed job_id result now) jobs = (complete_job job_id result now jobs).1
  perform (give_up job_id error now) jobs = (fail_job failure_text job_id error now jobs).1
  perform (forget job_id) jobs = (cleanup_job job_id jobs).1
  perform (forget_old max_age_hours now) jobs = (cleanup_old_jobs max_age_hours now jobs).1

  unfoldable pub perform_all : List (Call R M) → Jobs R M → Jobs R M
  perform_all [] jobs = jobs
  perform_all (c ∷ calls) jobs = perform_all calls (perform c jobs)

module _ {ℓ} {R M : Type ℓ} where
  -- What a poller may rely on.
  pub record IsSound (job : Job R M) : Type 0 where
    pub step_within : job.current_step ≤ job.total_steps
    pub progress_within : job.progress ≤ 100
    pub full_when_completed :
        (same_status job.status completed ≡ false)
        ⊎ ((job.progress ≡ 100) × (job.current_step ≡ job.total_steps))

  abbrev pub AllSound : Jobs R M → Type 0
  AllSound = All (λ (e : String × Job R M). IsSound e.1)

  AllSound-assign :
      (k : String) (job : Job R M) (jobs : Jobs R M)
      → IsSound job
      → AllSound jobs
      → AllSound (assign k job jobs)
  unfolding assign
  AllSound-assign k job [] h all = (h, tt)
  AllSound-assign k job ((j, old) ∷ jobs) h all = elim (Bool-cases (str_eq j k)) [
    | inl same ↦ rw same (h, all.1)
    | inr other ↦ rw other (all.0, AllSound-assign k job jobs h all.1)
  ]

  AllSound-remove : (k : String) (jobs : Jobs R M) → AllSound jobs → AllSound (remove k jobs)
  unfolding remove
  AllSound-remove k [] all = tt
  AllSound-remove k ((j, old) ∷ jobs) all = elim (Bool-cases (str_eq j k)) [
    | inl same ↦ rw same (AllSound-remove k jobs all.1)
    | inr other ↦ rw other (all.0, AllSound-remove k jobs all.1)
  ]

  AllSound-remove_all :
      (keys : List String) (jobs : Jobs R M) → AllSound jobs → AllSound (remove_all keys jobs)
  unfolding remove_all
  AllSound-remove_all [] jobs all = all
  AllSound-remove_all (k ∷ keys) jobs all =
      AllSound-remove_all keys (remove k jobs) (AllSound-remove k jobs all)

  lookup-IsSound :
      (k : String) (job : Job R M) (jobs : Jobs R M)
      → lookup k jobs ≡ some job
      → AllSound jobs
      → IsSound job
  unfolding lookup
  lookup-IsSound k job [] h all = cc
  lookup-IsSound k job ((j, old) ∷ jobs) h all = elim (Bool-cases (str_eq j k)) [
    | inl same ↦ let e : old ≡ job = cc (rw same at h) in rw e at all.0
    | inr other ↦ lookup-IsSound k job jobs (rw other at h) all.1
  ]

  write-AllSound :
      (f : Job R M → Job R M) (k : String) (jobs : Jobs R M)
      → ((job : Job R M) → IsSound job → IsSound (f job))
      → AllSound jobs
      → AllSound (write f k jobs).1
  unfolding write write_found
  write-AllSound f k jobs keeps all = elim (Option-cases (lookup k jobs)) [
    | inl absent ↦ rw absent all
    | inr (job, found) ↦
        rw found
          (AllSound-assign k (f job) jobs (keeps job (lookup-IsSound k job jobs found all)) all)
  ]

  advance-IsSound :
      (percent : ℕ → ℕ → ℕ) (law : (a b : ℕ) → a ≤ b → 1 ≤ b → percent a b ≤ 100) (current : ℕ)
      (message : String) (metadata : OrderedDict M) (now : ℕ) (job : Job R M)
      → IsSound (advance percent current message metadata now job)
  unfolding advance
  advance-IsSound percent law current message metadata now job = record {
    step_within = omega arith;
    progress_within = elim (Bool-cases (ltb 0 (max job.total_steps current))) [
      | inl some_steps ↦
          rw some_steps
            (law current (max job.total_steps current) (omega arith) (ground (arith, some_steps)))
      | inr no_steps ↦ rw no_steps (omega arith)
    ];
    full_when_completed = inl refl;
  }

  complete-IsSound :
      (result : Option R) (now : ℕ) (job : Job R M) → IsSound (complete result now job)
  unfolding complete
  complete-IsSound result now job = record {
    step_within = omega arith;
    progress_within = omega arith;
    full_when_completed = inr (refl, refl);
  }

  fail-IsSound :
      (failure_text : String → String) (error : String) (now : ℕ) (job : Job R M)
      → IsSound job
      → IsSound (fail failure_text error now job)
  unfolding fail
  fail-IsSound failure_text error now job h = record {
    step_within = h.step_within;
    progress_within = h.progress_within;
    full_when_completed = inl refl;
  }

  cleanup_job-AllSound :
      (k : String) (jobs : Jobs R M) → AllSound jobs → AllSound (cleanup_job k jobs).1
  unfolding cleanup_job cleanup_found
  cleanup_job-AllSound k jobs all = elim (Option-cases (lookup k jobs)) [
    | inl absent ↦ rw absent all
    | inr (job, found) ↦ rw found (AllSound-remove k jobs all)
  ]

  perform-AllSound :
      (percent : ℕ → ℕ → ℕ) (law : (a b : ℕ) → a ≤ b → 1 ≤ b → percent a b ≤ 100)
      (failure_text : String → String) (c : Call R M) (jobs : Jobs R M)
      → AllSound jobs
      → AllSound (perform percent failure_text c jobs)
  unfolding perform create_job update_progress complete_job fail_job cleanup_old_jobs
  perform-AllSound percent law failure_text (create k job_type user_id total metadata now) jobs
        all =
      AllSound-assign k _ jobs
        (record {
          step_within = omega arith;
          progress_within = omega arith;
          full_when_completed = inl refl;
        })
        all
  perform-AllSound percent law failure_text (progress k current message metadata now) jobs all =
      write-AllSound _ k jobs
        (λ job h. advance-IsSound percent law current message metadata now job) all
  perform-AllSound percent law failure_text (succeed k result now) jobs all =
      write-AllSound _ k jobs (λ job h. complete-IsSound result now job) all
  perform-AllSound percent law failure_text (give_up k error now) jobs all =
      write-AllSound _ k jobs (λ job h. fail-IsSound failure_text error now job h) all
  perform-AllSound percent law failure_text (forget k) jobs all = cleanup_job-AllSound k jobs all
  perform-AllSound percent law failure_text (forget_old hours now) jobs all =
      AllSound-remove_all _ jobs all

  -- Given that the float percentage of a part of a whole that is not 0 is at most 100, and that
  -- these hold of the jobs at first: after any calls, each job's current step is at most its
  -- total, its progress is at most 100, and a completed job reports 100 and its last step.
  pub perform_all-AllSound :
      (percent : ℕ → ℕ → ℕ) (law : (a b : ℕ) → a ≤ b → 1 ≤ b → percent a b ≤ 100)
      (failure_text : String → String) (calls : List (Call R M)) (jobs : Jobs R M)
      → AllSound jobs
      → AllSound (perform_all percent failure_text calls jobs)
  unfolding perform_all
  perform_all-AllSound percent law failure_text [] jobs all = all
  perform_all-AllSound percent law failure_text (c ∷ calls) jobs all =
      perform_all-AllSound percent law failure_text calls (perform percent failure_text c jobs)
        (perform-AllSound percent law failure_text c jobs all)
