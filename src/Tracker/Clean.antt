-- ===== src/Tracker/Clean.antt =====
-- What the clean-ups of app/services/job_tracker.py delete: ended jobs, and no job that still runs.
use inventory_logix_dashboar.Base.{
  ℕ, ◌+◌, String, ◌≡◌, refl, ap, ◌∙◌, Bool, true, false, ◌&&◌, ◌||◌, ltb, ◌*◌, not, none, List, [],
  ◌∷◌, map, arith, Bool-cases, inl, inr, keep_if, length, eq_iff,
}
use inventory_logix_dashboar.Base.Dict.{OrderedDict, lookup, remove, remove_absent, IsUnique}
use mathlib.Core.Path.{fun_ext}
use inventory_logix_dashboar.Tracker.{
  Status, pending, running, completed, failed, Job, same_status, Jobs, cleanup_old_jobs, remove_all,
  is_old,
}

module _ {ℓ} {V : Type ℓ} where
  -- The keys of the entries whose value passes the test.
  abbrev keys_of : (V → Bool) → OrderedDict V → List String
  keys_of p d = map (λ e. e.0) (keep_if (λ e. p e.1) d)

  lookup-keys_of :
      (p : V → Bool) (k : String) (d : OrderedDict V)
      → lookup k d ≡ none
      → lookup k (keep_if (λ e. p e.1) d) ≡ none
  unfolding lookup keep_if
  lookup-keys_of p k [] h = refl
  lookup-keys_of p k ((j, v) ∷ d) h = ground (arith, lookup-keys_of p k d)

  -- A deletion of other keys leaves the first entry in place.
  remove_all_cons :
      (k : String) (v : V) (e d : OrderedDict V)
      → lookup k e ≡ none
      → remove_all (map (λ (x : String × V). x.0) e) ((k, v) ∷ d)
        ≡ (k, v) ∷ remove_all (map (λ (x : String × V). x.0) e) d
  unfolding lookup remove remove_all
  remove_all_cons k v [] d h = refl
  remove_all_cons k v ((j, w) ∷ e) d h =
      ground (arith, eq_iff j k, eq_iff k j, remove_all_cons k v e (remove j d))

  if_removed :
      (k : String) (v : V) (d : OrderedDict V) → lookup k d ≡ none → remove k ((k, v) ∷ d) ≡ d
  unfolding remove
  if_removed k v d h = ground (arith, eq_iff k k, remove_absent k d h)

  remove_all-keys_of :
      (p : V → Bool) (d : OrderedDict V)
      → IsUnique d
      → remove_all (keys_of p d) d ≡ keep_if (λ e. not (p e.1)) d
  unfolding remove_all keep_if remove
  remove_all-keys_of p [] h = refl
  remove_all-keys_of p ((k, v) ∷ d) h = elim (Bool-cases (p v)) [
    | inl old ↦
        rw (old, ap (remove_all (keys_of p d)) (if_removed k v d h.0)) (remove_all-keys_of p d h.1)
    | inr kept ↦ rw kept (
        remove_all_cons k v (keep_if (λ e. p e.1) d) d (lookup-keys_of p k d h.0)
        ∙ ap (λ (rest : OrderedDict V). (k, v) ∷ rest) (remove_all-keys_of p d h.1))
  ]

  length-keys_of :
      (p : V → Bool) (d : OrderedDict V)
      → length (keys_of p d) + length (keep_if (λ e. not (p e.1)) d) ≡ length d
  unfolding keep_if
  length-keys_of p [] = refl
  length-keys_of p ((k, v) ∷ d) = ground (arith, length-keys_of p d)

-- The job has ended, with or without success.
abbrev pub is_ended : Status → Bool
is_ended completed = true
is_ended failed = true
is_ended _ = false

ended_lem : (s : Status) → (same_status s completed || same_status s failed) ≡ is_ended s
ended_lem pending = refl
ended_lem running = refl
ended_lem completed = refl
ended_lem failed = refl

module _ {ℓ} {R M : Type ℓ} where
  -- The job has ended and was made more than so many hours ago.
  abbrev pub may_go : ℕ → ℕ → Job R M → Bool
  may_go max_age_hours now job =
      ltb (job.created_at + 3600 * max_age_hours) now && is_ended job.status

  is_old-may_go :
      (max_age_hours now : ℕ) (job : Job R M)
      → is_old max_age_hours now job ≡ may_go max_age_hours now job
  unfolding is_old
  is_old-may_go max_age_hours now job =
      ap (λ b. ltb (job.created_at + 3600 * max_age_hours) now && b) (ended_lem job.status)

  -- Of a tracker with unique ids, `cleanup_old_jobs` deletes just the jobs that are completed or
  -- failed and were made before the cutoff; the others stay, in their order, and the number that it
  -- returns is the number of jobs that are gone.
  pub cleanup_old_jobs_lem :
      (max_age_hours now : ℕ) (jobs : Jobs R M)
      → IsUnique jobs
      → let (cleaned, rest) = cleanup_old_jobs max_age_hours now jobs in
        (rest ≡ keep_if (λ e. not (may_go max_age_hours now e.1)) jobs)
        × (cleaned + length rest ≡ length jobs)
  unfolding cleanup_old_jobs
  cleanup_old_jobs_lem max_age_hours now jobs h =
      let kept = remove_all-keys_of (is_old max_age_hours now) jobs h in
      (
        kept
            ∙ ap (λ p. keep_if (λ e. not (p e.1)) jobs) (fun_ext (is_old-may_go max_age_hours now)),
        rw kept (length-keys_of (is_old max_age_hours now) jobs),
      )
