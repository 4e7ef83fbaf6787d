-- ===== src/Etl/Run/Stages.antt =====
-- app/database/etl.py: what one use of the database, the retries and a whole stage leave behind.
use inventory_logix_dashboar.Base.{
  ℕ, zero, suc, ◌≡◌, refl, sym, ◌∙◌, ap, true, Option, none, some, List, [], ◌∷◌, arith,
}
use mathlib.Core.Path.{subst}
use inventory_logix_dashboar.JobQueue.{PyException, Outcome, returned, raised}
use inventory_logix_dashboar.Etl.{Retried, write_state}
use inventory_logix_dashboar.Etl.Retry.{
  is_transient, calls, all_transient, run_of, retry_operation_lem,
}
use inventory_logix_dashboar.Etl.Dims.{Tables}
use inventory_logix_dashboar.Etl.Session.{
  World, M, then_do, next_fault, settle_op, fallen, never_ran, rolled_back, use_db, commit,
  rollback, with_retry, set_state, stage_body, stage,
}

module _ {A : Type 0} where
  -- An exception changes no table; an answer is the operation's, on the open transaction.
  abbrev pub Follows : (Tables → Outcome (A × Tables)) → World → Outcome A × World → Type 0
  Follows op w (raised e, v) = (v.working ≡ w.working) × (v.committed ≡ w.committed)
  Follows op w (returned a, v) =
      (op w.working ≡ returned (a, v.working)) × (v.committed ≡ w.committed)

  settle-Follows :
      (op : Tables → Outcome (A × Tables)) (w : World) (faults : List (Option PyException))
      (o : Outcome (A × Tables))
      → op w.working ≡ o
      → Follows op w (settle_op (record w { faults = faults }) o)
  settle-Follows op w faults (returned (a, t)) h = (h, refl)
  settle-Follows op w faults (raised e) h = (refl, refl)

  fault-Follows :
      (op : Tables → Outcome (A × Tables)) (w : World) (faults : List (Option PyException))
      → Follows op w (next_fault faults (λ (v : World). settle_op v (op v.working)) w)
  fault-Follows op w [] = settle-Follows op w w.faults (op w.working) refl
  fault-Follows op w (none ∷ faults) = settle-Follows op w faults (op w.working) refl
  fault-Follows op w (some e ∷ faults) = (refl, refl)

  pub use_db-Follows : (op : Tables → Outcome (A × Tables)) (w : World) → Follows op w (use_db op w)
  unfolding use_db
  use_db-Follows op w = fault-Follows op w w.faults

  transient_keeps :
      (op : Tables → Outcome (A × Tables)) (w : World) (r : Outcome A × World)
      → Follows op w r
      → is_transient r.0 ≡ true
      → (r.1.working ≡ w.working) × (r.1.committed ≡ w.committed)
  transient_keeps op w (returned a, v) h t = cc
  transient_keeps op w (raised e, v) h t = h

  -- Calls that all raise connection errors leave the tables alone.
  calls_keep :
      (op : Tables → Outcome (A × Tables)) (n : ℕ) (w : World)
      → all_transient (use_db op) n w ≡ true
      → ((calls (use_db op) n w).working ≡ w.working)
        × ((calls (use_db op) n w).committed ≡ w.committed)
  unfolding calls all_transient
  calls_keep op zero w h = (refl, refl)
  calls_keep op (suc n) w h =
      let first : is_transient (use_db op w).0 ≡ true = ground arith in
      let (kept, same) = transient_keeps op w (use_db op w) (use_db-Follows op w) first in
      let (later, also) = calls_keep op n (use_db op w).1 (ground arith) in
      (later ∙ kept, also ∙ same)

  calls-suc :
      (op : Tables → Outcome (A × Tables)) (n : ℕ) (w : World)
      → calls (use_db op) (suc n) w ≡ (use_db op (calls (use_db op) n w)).1
  unfolding calls
  calls-suc op zero w = refl
  calls-suc op (suc n) w = calls-suc op n (use_db op w).1

  Follows-moved :
      (op : Tables → Outcome (A × Tables)) (w u : World) (r : Outcome A × World)
      → u.working ≡ w.working
      → u.committed ≡ w.committed
      → Follows op u r
      → Follows op w r
  Follows-moved op w u (returned a, v) p q h = (ap op (sym p) ∙ h.0, h.1 ∙ q)
  Follows-moved op w u (raised e, v) p q h = (h.0 ∙ p, h.1 ∙ q)

  pub with_retry-Follows :
      (op : Tables → Outcome (A × Tables)) (w : World) → Follows op w (with_retry (use_db op) w)
  unfolding with_retry run_of
  with_retry-Follows op w =
      let (n, lt, before, end, same) = retry_operation_lem (use_db op) 3 1 10 w (omega arith) in
      let u = calls (use_db op) n w in
      let (kept, held) = calls_keep op n w before in
      subst (λ (r : Retried A World). Follows op w (fallen never_ran r.outcome, r.world)) (sym same)
        (subst (λ (v : World). Follows op w ((use_db op u).0, v)) (sym (calls-suc op n w))
          (Follows-moved op w u (use_db op u) kept held (use_db-Follows op u)))

-- How a commit ends.
abbrev pub Commits : World → Outcome (Unit {0}) × World → Type 0
Commits w (raised e, v) = v.committed ≡ w.committed
Commits w (returned a, v) = (v.committed ≡ w.working) × (v.working ≡ w.working)

fault-Commits :
    (w : World) (faults : List (Option PyException))
    → Commits w
        (next_fault faults (λ (v : World). (returned tt, record v { committed = v.working })) w)
fault-Commits w [] = (refl, refl)
fault-Commits w (none ∷ faults) = (refl, refl)
fault-Commits w (some e ∷ faults) = refl

pub commit-Commits : (w : World) → Commits w (commit w)
unfolding commit
commit-Commits w = fault-Commits w w.faults

abbrev pub marked : ℕ → Tables → Tables
marked id t = record t { etl_state = write_state "last_movement_id" id t.etl_state }

module _ {A : Type 0} where
  -- How a stage ends: an exception leaves the tables as they were committed; an answer is the
  -- operation's on the open transaction, committed with the watermark.
  abbrev pub Ends : (Tables → Outcome (A × Tables)) → ℕ → World → Outcome A × World → Type 0
  Ends op id w (raised e, v) = (v.working ≡ w.committed) × (v.committed ≡ w.committed)
  Ends op id w (returned a, v) =
      (t : Tables) × (op w.working ≡ returned (a, t))
      × (v.committed ≡ record t { etl_state = write_state "last_movement_id" id t.etl_state })
      × (v.working ≡ v.committed)

  committed_end :
      (op : Tables → Outcome (A × Tables)) (id : ℕ) (w u : World) (a : A) (t : Tables)
      (r : Outcome (Unit {0}) × World)
      → op w.working ≡ returned (a, t)
      → u.working ≡ marked id t
      → u.committed ≡ w.committed
      → Commits u r
      → Ends op id w (rolled_back (then_do (λ x v. (returned a, v)) r))
  unfolding rollback
  committed_end op id w u a t (raised e, v) h p q c = (c ∙ q, c ∙ q)
  committed_end op id w u a t (returned x, v) h p q c = (t, h, c.0 ∙ p, c.1 ∙ sym c.0)

  marked_end :
      (op : Tables → Outcome (A × Tables)) (id : ℕ) (w u : World) (a : A)
      (r : Outcome (Unit {0}) × World)
      → op w.working ≡ returned (a, u.working)
      → u.committed ≡ w.committed
      → Follows (set_state "last_movement_id" id) u r
      → Ends op id w (rolled_back (then_do (λ x v. then_do (λ y z. (returned a, z)) (commit v)) r))
  unfolding rollback commit set_state
  marked_end op id w u a (raised e, v) h q f = (f.1 ∙ q, f.1 ∙ q)
  marked_end op id w u a (returned x, v) h q f =
      committed_end op id w v a u.working (commit v) h (cc (f.0)) (f.1 ∙ q)
        (fault-Commits v v.faults)

  body_end :
      (op : Tables → Outcome (A × Tables)) (id : ℕ) (w : World) (r : Outcome A × World)
      → Follows op w r
      → Ends op id w (
          rolled_back (
            then_do
              (λ a v.
                then_do
                  (λ x u. then_do (λ y z. (returned a, z)) (commit u))
                  (use_db (set_state "last_movement_id" id) v))
              r))
  unfolding rollback
  body_end op id w (raised e, v) f = (f.1, f.1)
  body_end op id w (returned a, v) f =
      marked_end op id w v a (use_db (set_state "last_movement_id" id) v) f.0 f.1
        (use_db-Follows (set_state "last_movement_id" id) v)

  pub stage-Ends :
      (op : Tables → Outcome (A × Tables)) (id : ℕ) (w : World) → Ends op id w (stage op id w)
  unfolding stage stage_body
  stage-Ends op id w = body_end op id w (with_retry (use_db op) w) (with_retry-Follows op w)

-- A property of what follows a stage: it is shown where the stage raises, and where it answers.
pub stage_then :
    {A B : Type 0} (op : Tables → Outcome (A × Tables)) (id : ℕ) (w : World) (k : A → M B)
    (Q : Outcome B × World → Type 0)
    → ((e : PyException) (v : World) → v.committed ≡ w.committed → Q (raised e, v))
    → ((a : A) (t : Tables) (v : World)
        → op w.working ≡ returned (a, t)
        → v.committed ≡ marked id t
        → v.working ≡ v.committed
        → Q (k a v))
    → Q (then_do k (stage op id w))
stage_then {A} {B} op id w k Q left right = split (stage op id w) (stage-Ends op id w)
  where
    split : (r : Outcome A × World) → Ends op id w r → Q (then_do k r)
    split (raised e, v) h = left e v h.1
    split (returned a, v) h = let (t, done, stored, clean) = h in right a t v done stored clean
