-- ===== src/JobQueue/History.antt =====
-- Histories of the job queue: the calls of app/services/job_queue_service.py and app/worker.py that
-- write the table, in any order, by any number of workers.
use inventory_logix_dashboar.Base.{
  ℕ, suc, ◌+◌, ◌<◌, String, ◌≡◌, refl, Bool, false, Option, none, some, List, [], ◌∷◌, ◌++◌, arith,
  ◌==◌, All, All-append, Bool-cases, leb, inl, inr,
}
use inventory_logix_dashboar.Base.Int.{ℤ}
use inventory_logix_dashboar.JobQueue.{
  Job, Handlers, Queue, update_where, mark_running, complete, bury, back_off, finish, execute_job,
  execute_with, enqueue, Outcome, returned, raised, find_handler,
}
use inventory_logix_dashboar.JobQueue.Worker.{
  requeue_stale, requeue_row, claim_row, claim_jobs, after_job,
}
use inventory_logix_dashboar.JobQueue.Keys.{IsKeyed, update_where-IsKeyed}
use inventory_logix_dashboar.JobQueue.Lifecycle.{
  Extends, Extends-refl, Extends-trans, Extends-append,
}
use inventory_logix_dashboar.JobQueue.Statements.{
  mark_running-Extends, finish-Extends, requeue_stale-Extends, claim_jobs-Extends,
}

-- A call that writes the table; the jobs are copies that a worker holds, of any age. `executed` is a
-- `_execute_job` with nothing in between; `mark_committed` and `finish_committed` are its two transactions,
-- between which its handler and any other calls may run.
pub data Event {ℓ} (P R : Type ℓ) : Type ℓ where
  enqueued : String → P → ℤ → ℕ → ℕ → ℕ → Event P R
  requeued : ℕ → Event P R
  claimed : (ℕ → Bool) → String → ℕ → ℕ → Event P R
  executed : Handlers P R → Job P R → ℕ → ℕ → Event P R
  mark_committed : Job P R → ℕ → Event P R
  finish_committed : Outcome R → Job P R → ℕ → Event P R

module _ {ℓ} {P R : Type ℓ} where
  unfoldable pub perform : Event P R → Queue P R → Queue P R
  perform (enqueued task payload priority max_attempts delay now) q =
      (enqueue task payload priority max_attempts delay now q).1
  perform (requeued now) q = record q { rows = requeue_stale now q.rows }
  perform (claimed held worker limit now) q = record q {
    rows = (claim_jobs held worker limit now q.rows).1;
  }
  perform (executed handlers job started ended) q = record q {
    rows = after_job (execute_job handlers job started ended q.rows) q.rows;
  }
  perform (mark_committed job now) q = record q { rows = mark_running job.id now q.rows }
  perform (finish_committed outcome job now) q = record q { rows = finish outcome job now q.rows }

  unfoldable pub perform_all : List (Event P R) → Queue P R → Queue P R
  perform_all [] q = q
  perform_all (e ∷ events) q = perform_all events (perform e q)

  -- The primary key holds, and the sequence is past every id.
  pub record IsNumbered (q : Queue P R) : Type ℓ where
    pub keyed : IsKeyed q.rows
    pub below : All (λ (row : Job P R). row.id < q.next_id) q.rows

  below-update_where :
      (p : Job P R → Bool) (f : Job P R → Job P R) (same : (x : Job P R) → (f x).id ≡ x.id) (n : ℕ)
      (rows : List (Job P R))
      → All (λ (row : Job P R). row.id < n) rows
      → All (λ (row : Job P R). row.id < n) (update_where p f rows)
  unfolding update_where
  below-update_where p f same n [] h = tt
  below-update_where p f same n (x ∷ rows) h =
      ground (arith, same x, below-update_where p f same n rows h.1)

  update_where-IsNumbered :
      (p : Job P R → Bool) (f : Job P R → Job P R) (same : (x : Job P R) → (f x).id ≡ x.id)
      (q : Queue P R)
      → IsNumbered q
      → IsNumbered (record q { rows = update_where p f q.rows })
  update_where-IsNumbered p f same q h = record {
    keyed = update_where-IsKeyed p f same q.rows h.keyed;
    below = below-update_where p f same q.next_id q.rows h.below;
  }

  absent_below :
      (n : ℕ) (new : Job P R) (rows : List (Job P R))
      → new.id ≡ n
      → All (λ (row : Job P R). row.id < n) rows
      → IsKeyed rows
      → IsKeyed (rows ++ new ∷ [])
  absent_below n new [] e h k = (tt, tt)
  absent_below n new (x ∷ rows) e h k = (
    All-append (λ (y : Job P R). (x.id == y.id) ≡ false) rows (new ∷ []) k.0 (ground arith, tt),
    absent_below n new rows e h.1 k.1,
  )

  below_suc :
      (n : ℕ) (rows : List (Job P R))
      → All (λ (row : Job P R). row.id < n) rows
      → All (λ (row : Job P R). row.id < suc n) rows
  below_suc n [] h = tt
  below_suc n (x ∷ rows) h = (omega (arith, h.0), below_suc n rows h.1)

  enqueue-IsNumbered :
      (task : String) (payload : P) (priority : ℤ) (max_attempts delay now : ℕ) (q : Queue P R)
      → IsNumbered q
      → IsNumbered (enqueue task payload priority max_attempts delay now q).1
  unfolding enqueue
  enqueue-IsNumbered task payload priority max_attempts delay now q h = record {
    keyed = absent_below q.next_id _ q.rows refl h.below h.keyed;
    below =
        All-append (λ (row : Job P R). row.id < suc q.next_id) q.rows _
          (below_suc q.next_id q.rows h.below) (omega arith, tt);
  }

  finish-IsNumbered :
      (outcome : Outcome R) (job : Job P R) (now : ℕ) (q : Queue P R)
      → IsNumbered q
      → IsNumbered (record q { rows = finish outcome job now q.rows })
  unfolding finish complete bury back_off
  finish-IsNumbered (returned result) job now q h = update_where-IsNumbered _ _ (λ x. refl) q h
  finish-IsNumbered (raised e) job now q h =
      elim (Bool-cases (leb job.max_attempts (job.attempts + 1))) [
        | inl last ↦ rw last (update_where-IsNumbered _ _ (λ x. refl) q h)
        | inr again ↦ rw again (update_where-IsNumbered _ _ (λ x. refl) q h)
      ]

  execute_with-IsNumbered :
      (handler : Option (P → Outcome R)) (job : Job P R) (started ended : ℕ) (q : Queue P R)
      → IsNumbered q
      → IsNumbered
          (record q { rows = after_job (execute_with handler job started ended q.rows) q.rows })
  unfolding execute_with after_job mark_running
  execute_with-IsNumbered none job started ended q h = h
  execute_with-IsNumbered (some handler) job started ended q h =
      finish-IsNumbered (handler job.payload) job ended
        (record q { rows = mark_running job.id started q.rows })
        (update_where-IsNumbered _ _ (λ x. refl) q h)

  execute_with-Extends :
      (handler : Option (P → Outcome R)) (job : Job P R) (started ended : ℕ) (rows : List (Job P R))
      → Extends rows (after_job (execute_with handler job started ended rows) rows)
  unfolding execute_with after_job
  execute_with-Extends none job started ended rows = Extends-refl rows
  execute_with-Extends (some handler) job started ended rows =
      let marked = mark_running job.id started rows in
      Extends-trans rows marked (finish (handler job.payload) job ended marked)
        (mark_running-Extends job.id started rows)
        (finish-Extends (handler job.payload) job ended marked)

  perform-IsNumbered : (e : Event P R) (q : Queue P R) → IsNumbered q → IsNumbered (perform e q)
  unfolding perform requeue_stale requeue_row claim_jobs claim_row execute_job mark_running
  perform-IsNumbered (enqueued task payload priority max_attempts delay now) q h =
      enqueue-IsNumbered task payload priority max_attempts delay now q h
  perform-IsNumbered (requeued now) q h = update_where-IsNumbered _ _ (λ x. refl) q h
  perform-IsNumbered (claimed held worker limit now) q h =
      update_where-IsNumbered _ _ (λ x. refl) q h
  perform-IsNumbered (executed handlers job started ended) q h =
      execute_with-IsNumbered (find_handler job.task_name handlers) job started ended q h
  perform-IsNumbered (mark_committed job now) q h = update_where-IsNumbered _ _ (λ x. refl) q h
  perform-IsNumbered (finish_committed outcome job now) q h = finish-IsNumbered outcome job now q h

  perform-Extends :
      (e : Event P R) (q : Queue P R) → IsNumbered q → Extends q.rows (perform e q).rows
  unfolding perform enqueue execute_job
  perform-Extends (enqueued task payload priority max_attempts delay now) q h =
      Extends-append q.rows _
  perform-Extends (requeued now) q h = requeue_stale-Extends now q.rows
  perform-Extends (claimed held worker limit now) q h =
      claim_jobs-Extends held worker limit now q.rows h.keyed
  perform-Extends (executed handlers job started ended) q h =
      execute_with-Extends (find_handler job.task_name handlers) job started ended q.rows
  perform-Extends (mark_committed job now) q h = mark_running-Extends job.id now q.rows
  perform-Extends (finish_committed outcome job now) q h = finish-Extends outcome job now q.rows

  -- Every call that writes the table keeps the primary key, and the sequence past every id.
  pub perform_all-IsNumbered :
      (events : List (Event P R)) (q : Queue P R) → IsNumbered q → IsNumbered (perform_all events q)
  unfolding perform_all
  perform_all-IsNumbered [] q h = h
  perform_all-IsNumbered (e ∷ events) q h =
      perform_all-IsNumbered events (perform e q) (perform-IsNumbered e q h)

  -- From a table with a primary key and a sequence past its ids, whatever calls follow, in any
  -- order, with copies of jobs of any age and with anything between the two transactions of an execution: each row stays at its place with its id and its limit
  -- of attempts, its status only moves along the transitions pending to running, and running to
  -- completed, dead or pending, its attempts never fall, and a row whose status is final is never
  -- written again.
  pub perform_all-Extends :
      (events : List (Event P R)) (q : Queue P R)
      → IsNumbered q
      → Extends q.rows (perform_all events q).rows
  unfolding perform_all
  perform_all-Extends [] q h = Extends-refl q.rows
  perform_all-Extends (e ∷ events) q h =
      Extends-trans q.rows (perform e q).rows (perform_all events (perform e q)).rows
        (perform-Extends e q h)
        (perform_all-Extends events (perform e q) (perform-IsNumbered e q h))
