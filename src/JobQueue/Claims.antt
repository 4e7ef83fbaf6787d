-- ===== src/JobQueue/Claims.antt =====
-- What `claim_jobs` of app/worker.py takes: due rows, each once, and no more than asked for.
use mathlib.Core.List.{Memᴰ}
use inventory_logix_dashboar.Base.{
  ℕ, zero, suc, ◌≤◌, String, ◌≡◌, refl, ◌∙◌, Bool, true, false, inl, inr, List, [], ◌∷◌, arith,
  Bool-cases, All, keep_if, take, length, length-take-le,
}
use inventory_logix_dashboar.JobQueue.{Job}
use inventory_logix_dashboar.JobQueue.Worker.{
  insert_job, sort_jobs, is_due, select_due, is_claimed, claim_row, claim_jobs, runs_before,
}
use inventory_logix_dashboar.JobQueue.Keys.{
  IsKeyed, is_claimed_due, update_where-Memᴰ, update_where-IsKeyed,
}

module _ {ℓ} {P R : Type ℓ} where
  All-insert_job :
      (Q : Job P R → Type 0) (a : Job P R) (rows : List (Job P R))
      → Q a
      → All Q rows
      → All Q (insert_job a rows)
  unfolding insert_job
  All-insert_job Q a [] q h = (q, tt)
  All-insert_job Q a (b ∷ rows) q h = elim (Bool-cases (runs_before a b)) [
    | inl first ↦ rw first (q, (h.0, h.1))
    | inr later ↦ rw later (h.0, All-insert_job Q a rows q h.1)
  ]

  All-sort_jobs :
      (Q : Job P R → Type 0) (rows : List (Job P R)) → All Q rows → All Q (sort_jobs rows)
  unfolding sort_jobs
  All-sort_jobs Q [] h = h
  All-sort_jobs Q (a ∷ rows) h = All-insert_job Q a (sort_jobs rows) h.0 (All-sort_jobs Q rows h.1)

  All-take :
      (Q : Job P R → Type 0) (n : ℕ) (rows : List (Job P R)) → All Q rows → All Q (take n rows)
  All-take Q zero rows h = tt
  All-take Q (suc n) [] h = tt
  All-take Q (suc n) (x ∷ rows) h = (h.0, All-take Q n rows h.1)

  All-passing :
      (p : Job P R → Bool) (rows : List (Job P R)) → All (λ x. p x ≡ true) (keep_if p rows)
  unfolding keep_if
  All-passing p [] = tt
  All-passing p (x ∷ rows) = ground (arith, All-passing p rows)

  -- A claim takes at most `limit` jobs, and each of them was pending, due and not locked by
  -- another transaction.
  pub claim_jobs_due :
      (held : ℕ → Bool) (worker : String) (limit now : ℕ) (rows : List (Job P R))
      → let jobs = (claim_jobs held worker limit now rows).0 in
        (length jobs ≤ limit) × All (λ (job : Job P R). is_due held now job ≡ true) jobs
  unfolding claim_jobs select_due
  claim_jobs_due held worker limit now rows = (
    length-take-le limit _,
    All-take (λ job. is_due held now job ≡ true) limit _
        (All-sort_jobs (λ job. is_due held now job ≡ true) _ (All-passing (is_due held now) rows)),
  )

  pub claimed-IsKeyed :
      (held : ℕ → Bool) (worker : String) (limit now : ℕ) (rows : List (Job P R))
      → IsKeyed rows
      → IsKeyed (claim_jobs held worker limit now rows).1
  unfolding claim_jobs claim_row
  claimed-IsKeyed held worker limit now rows h = update_where-IsKeyed _ _ (λ x. refl) rows h

  not_due_again :
      (held : ℕ → Bool) (worker : String) (earlier now : ℕ) (row : Job P R)
      → is_due held now (claim_row worker earlier row) ≡ false
  unfolding is_due claim_row
  not_due_again held worker earlier now row = refl

  claimed-Memᴰ :
      (held : ℕ → Bool) (worker : String) (limit now : ℕ) (rows : List (Job P R)) (row : Job P R)
      → Memᴰ row rows
      → is_claimed (claim_jobs held worker limit now rows).0 row ≡ true
      → Memᴰ (claim_row worker now row) (claim_jobs held worker limit now rows).1
  unfolding claim_jobs
  claimed-Memᴰ held worker limit now rows row m taken =
      update_where-Memᴰ (is_claimed (select_due held limit now rows)) (claim_row worker now) row
        rows taken m

  is_claimed-claim_row :
      (worker : String) (now : ℕ) (row : Job P R) (jobs : List (Job P R))
      → is_claimed jobs (claim_row worker now row) ≡ is_claimed jobs row
  unfolding is_claimed claim_row
  is_claimed-claim_row worker now row jobs = refl

  -- No row is claimed twice: of a table with a primary key, what one claim took, the next claim
  -- does not take, whoever makes it and whenever.
  pub claims_disjoint :
      (held held' : ℕ → Bool) (worker : String) (limit limit' now later : ℕ) (rows : List (Job P R))
      (row : Job P R)
      → IsKeyed rows
      → Memᴰ row rows
      → is_claimed (claim_jobs held worker limit now rows).0 row ≡ true
      → is_claimed (select_due held' limit' later (claim_jobs held worker limit now rows).1) row
        ≡ false
  claims_disjoint held held' worker limit limit' now later rows row keyed m taken =
      elim (Bool-cases (
        is_claimed (select_due held' limit' later (claim_jobs held worker limit now rows).1) row)) [
          | inl again ↦
              let after = (claim_jobs held worker limit now rows).1 in
              let due : is_due held' later (claim_row worker now row) ≡ true =
                is_claimed_due held' limit' later after (claim_row worker now row)
                  (claimed-IsKeyed held worker limit now rows keyed)
                  (claimed-Memᴰ held worker limit now rows row m taken)
                  (is_claimed-claim_row worker now row (select_due held' limit' later after)
                    ∙ again) in
              cc (not_due_again held' worker now later row, due)
          | inr once ↦ once
        ]
