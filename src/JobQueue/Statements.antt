-- ===== src/JobQueue/Statements.antt =====
-- Each statement of the job queue extends the table: it only moves rows along the life of a job.
use inventory_logix_dashboar.Base.{
  ℕ, ◌+◌, String, ◌≡◌, refl, Bool, true, inl, inr, List, arith, Bool-cases, leb,
}
use inventory_logix_dashboar.JobQueue.{
  pending, completed, dead, Outcome, returned, raised, Job, mark_running, complete, bury, back_off,
  finish, safe_error,
}
use inventory_logix_dashboar.JobQueue.Worker.{
  requeue_stale, requeue_row, is_stale, is_due, claim_row, claim_jobs,
}
use inventory_logix_dashboar.JobQueue.Keys.{IsKeyed, is_claimed_due}
use inventory_logix_dashboar.JobQueue.Lifecycle.{
  succeed, give_up, retry, Evolves, Extends, Extends-update_where, pending_path, running_path,
}

module _ {ℓ} {P R : Type ℓ} where
  pub mark_running-Extends :
      (n now : ℕ) (rows : List (Job P R)) → Extends rows (mark_running n now rows)
  unfolding mark_running
  mark_running-Extends n now rows = Extends-update_where _ _ rows λ x m h.
      let p = pending_path x.status (ground arith) in
      record {
        same_id = refl;
        same_limit = refl;
        attempts_grow = omega arith;
        path = p.0;
        frozen = inl p.1;
      }

  complete-Extends :
      (n : ℕ) (result : R) (now : ℕ) (rows : List (Job P R))
      → Extends rows (complete n result now rows)
  unfolding complete
  complete-Extends n result now rows = Extends-update_where _ _ rows λ x m h.
      let p = running_path x.status completed succeed (ground arith) in
      record {
        same_id = refl;
        same_limit = refl;
        attempts_grow = omega arith;
        path = p.0;
        frozen = inl p.1;
      }

  bury-Extends :
      (n : ℕ) (text : String) (now : ℕ) (rows : List (Job P R))
      → Extends rows (bury n text now rows)
  unfolding bury
  bury-Extends n text now rows = Extends-update_where _ _ rows λ x m h.
      let p = running_path x.status dead give_up (ground arith) in
      record {
        same_id = refl;
        same_limit = refl;
        attempts_grow = omega arith;
        path = p.0;
        frozen = inl p.1;
      }

  back_off-Extends : (n now : ℕ) (rows : List (Job P R)) → Extends rows (back_off n now rows)
  unfolding back_off
  back_off-Extends n now rows = Extends-update_where _ _ rows λ x m h.
      let p = running_path x.status pending retry (ground arith) in
      record {
        same_id = refl;
        same_limit = refl;
        attempts_grow = omega arith;
        path = p.0;
        frozen = inl p.1;
      }

  pub finish-Extends :
      (outcome : Outcome R) (job : Job P R) (now : ℕ) (rows : List (Job P R))
      → Extends rows (finish outcome job now rows)
  unfolding finish
  finish-Extends (returned result) job now rows = complete-Extends job.id result now rows
  finish-Extends (raised e) job now rows =
      elim (Bool-cases (leb job.max_attempts (job.attempts + 1))) [
        | inl last ↦ rw last (bury-Extends job.id (safe_error e) now rows)
        | inr again ↦ rw again (back_off-Extends job.id now rows)
      ]

  requeue_row-Evolves :
      (now : ℕ) (x : Job P R) → is_stale now x ≡ true → Evolves x (requeue_row now x)
  unfolding requeue_row is_stale
  requeue_row-Evolves now x h =
      let p = running_path x.status dead give_up (ground arith) in
      let q = running_path x.status pending retry (ground arith) in
      record {
        same_id = refl;
        same_limit = refl;
        attempts_grow = omega arith;
        path = elim (Bool-cases (leb x.max_attempts (x.attempts + 1))) [
          | inl last ↦ rw last p.0
          | inr again ↦ rw again q.0
        ];
        frozen = inl p.1;
      }

  pub requeue_stale-Extends :
      (now : ℕ) (rows : List (Job P R)) → Extends rows (requeue_stale now rows)
  unfolding requeue_stale
  requeue_stale-Extends now rows =
      Extends-update_where _ _ rows λ x m h. requeue_row-Evolves now x h

  claim_row-Evolves :
      (held : ℕ → Bool) (worker : String) (now : ℕ) (x : Job P R)
      → is_due held now x ≡ true
      → Evolves x (claim_row worker now x)
  unfolding claim_row is_due
  claim_row-Evolves held worker now x h =
      let p = pending_path x.status (ground arith) in
      record {
        same_id = refl;
        same_limit = refl;
        attempts_grow = omega arith;
        path = p.0;
        frozen = inl p.1;
      }

  pub claim_jobs-Extends :
      (held : ℕ → Bool) (worker : String) (limit now : ℕ) (rows : List (Job P R))
      → IsKeyed rows
      → Extends rows (claim_jobs held worker limit now rows).1
  unfolding claim_jobs
  claim_jobs-Extends held worker limit now rows keyed =
      Extends-update_where _ _ rows λ x m h.
        claim_row-Evolves held worker now x (is_claimed_due held limit now rows x keyed m h)
