-- ===== src/JobQueue/Keys.antt =====
-- The primary key of `job_queue`, and the rows that an update by id reaches.
use mathlib.Core.List.{Memᴰ}
use inventory_logix_dashboar.Base.{
  ℕ, zero, suc, ◌≡◌, refl, sym, ◌∙◌, ap, Bool, true, false, ◌||◌, List, [], ◌∷◌, arith, ◌==◌,
  if◌then◌else◌, All, All-Memᴰ, keep_if, any_of, take,
}
use inventory_logix_dashboar.JobQueue.{Job, update_where}
use inventory_logix_dashboar.JobQueue.Worker.{insert_job, sort_jobs, is_due, select_due, is_claimed}

module _ {ℓ} {P R : Type ℓ} where
  -- The primary key: no two rows have one id.
  abbrev pub IsKeyed : List (Job P R) → Type 0
  IsKeyed [] = Unit
  IsKeyed (x ∷ rows) = All (λ (y : Job P R). (x.id == y.id) ≡ false) rows × IsKeyed rows

  -- The rows' test for a job with this id.
  abbrev pub has_id : ℕ → List (Job P R) → Bool
  has_id n rows = any_of (λ (job : Job P R). n == job.id) rows

  has_id-keep_if :
      (n : ℕ) (p : Job P R → Bool) (rows : List (Job P R))
      → All (λ (y : Job P R). (n == y.id) ≡ false) rows
      → has_id n (keep_if p rows) ≡ false
  unfolding any_of keep_if
  has_id-keep_if n p [] h = refl
  has_id-keep_if n p (x ∷ rows) h = ground (arith, has_id-keep_if n p rows h.1)

  has_id_head :
      (p : Job P R → Bool) (x : Job P R) (rows : List (Job P R))
      → IsKeyed (x ∷ rows)
      → has_id x.id (keep_if p (x ∷ rows)) ≡ true
      → p x ≡ true
  unfolding any_of keep_if
  has_id_head p x rows keyed h = ground (arith, has_id-keep_if x.id p rows keyed.0)

  has_id_tail :
      (p : Job P R → Bool) (n : ℕ) (x : Job P R) (rows : List (Job P R))
      → (x.id == n) ≡ false
      → has_id n (keep_if p (x ∷ rows)) ≡ true
      → has_id n (keep_if p rows) ≡ true
  unfolding any_of keep_if
  has_id_tail p n x rows other h = ground arith

  -- A row of a table whose id is among the rows that pass a test passes it itself.
  has_id_passes :
      (p : Job P R → Bool) (row : Job P R) (rows : List (Job P R))
      → IsKeyed rows
      → Memᴰ row rows
      → has_id row.id (keep_if p rows) ≡ true
      → p row ≡ true
  has_id_passes p row [] keyed m h = elim m [ ]
  has_id_passes p row (x ∷ rows) keyed (Memᴰ.head e) h =
      rw e (has_id_head p x rows keyed (rw e at h))
  has_id_passes p row (x ∷ rows) keyed (Memᴰ.tail m) h = has_id_passes p row rows keyed.1 m (
      has_id_tail p row.id x rows
        (All-Memᴰ (λ (y : Job P R). (x.id == y.id) ≡ false) rows keyed.0 m) h)

  has_id-insert_job :
      (n : ℕ) (a : Job P R) (rows : List (Job P R))
      → has_id n (insert_job a rows) ≡ (n == a.id || has_id n rows)
  unfolding any_of insert_job
  has_id-insert_job n a [] = refl
  has_id-insert_job n a (b ∷ rows) = ground (arith, has_id-insert_job n a rows)

  has_id-sort_jobs : (n : ℕ) (rows : List (Job P R)) → has_id n (sort_jobs rows) ≡ has_id n rows
  unfolding any_of sort_jobs
  has_id-sort_jobs n [] = refl
  has_id-sort_jobs n (a ∷ rows) =
      ground (arith, has_id-insert_job n a (sort_jobs rows), has_id-sort_jobs n rows)

  has_id-take :
      (n k : ℕ) (rows : List (Job P R)) → has_id n (take k rows) ≡ true → has_id n rows ≡ true
  unfolding any_of
  has_id-take n zero rows h = cc
  has_id-take n (suc k) [] h = cc
  has_id-take n (suc k) (x ∷ rows) h = ground (arith, has_id-take n k rows)

  -- Of a table with a primary key, the update of a claim reaches due rows only.
  pub is_claimed_due :
      (held : ℕ → Bool) (limit now : ℕ) (rows : List (Job P R)) (row : Job P R)
      → IsKeyed rows
      → Memᴰ row rows
      → is_claimed (select_due held limit now rows) row ≡ true
      → is_due held now row ≡ true
  unfolding is_claimed select_due
  is_claimed_due held limit now rows row keyed m h =
      let sorted = has_id-take row.id limit (sort_jobs (keep_if (is_due held now) rows)) h in
      has_id_passes (is_due held now) row rows keyed m
        (sym (has_id-sort_jobs row.id (keep_if (is_due held now) rows)) ∙ sorted)

  pub update_where-Memᴰ :
      (p : Job P R → Bool) (f : Job P R → Job P R) (row : Job P R) (rows : List (Job P R))
      → p row ≡ true
      → Memᴰ row rows
      → Memᴰ (f row) (update_where p f rows)
  unfolding update_where
  update_where-Memᴰ p f row [] h m = elim m [ ]
  update_where-Memᴰ p f row (x ∷ rows) h (Memᴰ.head e) = Memᴰ.head (ground (arith, ap p e, ap f e))
  update_where-Memᴰ p f row (x ∷ rows) h (Memᴰ.tail m) =
      Memᴰ.tail (update_where-Memᴰ p f row rows h m)

  absent_id-update_where :
      (p : Job P R → Bool) (f : Job P R → Job P R) (same : (x : Job P R) → (f x).id ≡ x.id) (n : ℕ)
      (rows : List (Job P R))
      → All (λ (y : Job P R). (n == y.id) ≡ false) rows
      → All (λ (y : Job P R). (n == y.id) ≡ false) (update_where p f rows)
  unfolding update_where
  absent_id-update_where p f same n [] h = tt
  absent_id-update_where p f same n (x ∷ rows) h =
      ground (arith, same x, absent_id-update_where p f same n rows h.1)

  id_kept :
      (p : Job P R → Bool) (f : Job P R → Job P R) (x : Job P R)
      → (f x).id ≡ x.id
      → (if p x then f x else x).id ≡ x.id
  id_kept p f x same = ground arith

  -- An update that writes no id keeps the primary key.
  pub update_where-IsKeyed :
      (p : Job P R → Bool) (f : Job P R → Job P R) (same : (x : Job P R) → (f x).id ≡ x.id)
      (rows : List (Job P R))
      → IsKeyed rows
      → IsKeyed (update_where p f rows)
  unfolding update_where
  update_where-IsKeyed p f same [] h = tt
  update_where-IsKeyed p f same (x ∷ rows) h = (
    rw (id_kept p f x (same x)) (absent_id-update_where p f same x.id rows h.0),
    update_where-IsKeyed p f same rows h.1,
  )
