-- ===== src/JobQueue/Lifecycle.antt =====
-- The life of a job: how the rows of `job_queue` change under every statement of the queue's code,
-- in any order and from any number of workers.
use mathlib.Core.List.{Memᴰ}
use mathlib.Core.Logic.{Lift}
use inventory_logix_dashboar.Base.{
  ◌≤◌, ◌≡◌, ◌⊎◌, inl, inr, refl, ◌∙◌, ap, Bool, true, false, List, [], ◌∷◌, ◌++◌, arith,
  if◌then◌else◌,
}
use inventory_logix_dashboar.JobQueue.{
  JobStatus, pending, running, completed, failed, dead, is_pending, is_running, Job, update_where,
}

infix 40 ◌⟶◌ ◌⟶*◌
-- The transitions of a job's status.
pub data ◌⟶◌ : JobStatus → JobStatus → Type 0 where
  start : pending ⟶ running
  succeed : running ⟶ completed
  give_up : running ⟶ dead
  retry : running ⟶ pending

pub data ◌⟶*◌ : JobStatus → JobStatus → Type 0 where
  here : {s : JobStatus} → s ⟶* s
  step : {s t u : JobStatus} → s ⟶ t → t ⟶* u → s ⟶* u

⟶*_trans : {s t u : JobStatus} → s ⟶* t → t ⟶* u → s ⟶* u
⟶*_trans here q = q
⟶*_trans (step m p) q = step m (⟶*_trans p q)

abbrev pub is_terminal : JobStatus → Bool
is_terminal completed = true
is_terminal dead = true
is_terminal failed = true
is_terminal _ = false

-- How a row may change: its status moves along the transitions, its attempts never fall, and once
-- its status is final the row stays as it is.
pub record Evolves {ℓ} {P R : Type ℓ} (a b : Job P R) : Type ℓ where
  pub same_id : a.id ≡ b.id
  pub same_limit : a.max_attempts ≡ b.max_attempts
  pub attempts_grow : a.attempts ≤ b.attempts
  pub path : a.status ⟶* b.status
  pub frozen : (is_terminal a.status ≡ false) ⊎ (a ≡ b)

pub pending_path : (s : JobStatus) → is_pending s ≡ true → (s ⟶* running) × (is_terminal s ≡ false)
pending_path pending h = (step start here, refl)
pending_path running h = cc
pending_path completed h = cc
pending_path failed h = cc
pending_path dead h = cc

pub running_path :
    (s t : JobStatus) → running ⟶ t → is_running s ≡ true → (s ⟶* t) × (is_terminal s ≡ false)
running_path running t m h = (step m here, refl)
running_path pending t m h = cc
running_path completed t m h = cc
running_path failed t m h = cc
running_path dead t m h = cc

module _ {ℓ} {P R : Type ℓ} where
  pub Evolves-refl : (a : Job P R) → Evolves a a
  Evolves-refl a = record {
    same_id = refl;
    same_limit = refl;
    attempts_grow = omega arith;
    path = here;
    frozen = inr refl;
  }

  either_frozen :
      (a b c : Job P R)
      → (is_terminal a.status ≡ false) ⊎ (a ≡ b)
      → (is_terminal b.status ≡ false) ⊎ (b ≡ c)
      → (is_terminal a.status ≡ false) ⊎ (a ≡ c)
  either_frozen a b c (inl h) k = inl h
  either_frozen a b c (inr e) (inl h) = inl (ap (λ (j : Job P R). is_terminal j.status) e ∙ h)
  either_frozen a b c (inr e) (inr f) = inr (e ∙ f)

  Evolves-trans : (a b c : Job P R) → Evolves a b → Evolves b c → Evolves a c
  Evolves-trans a b c p q = record {
    same_id = p.same_id ∙ q.same_id;
    same_limit = p.same_limit ∙ q.same_limit;
    attempts_grow = omega arith;
    path = ⟶*_trans p.path q.path;
    frozen = either_frozen a b c p.frozen q.frozen;
  }

  -- Every row of the first table is found, evolved, at its place in the second, which may be longer.
  abbrev pub Extends : List (Job P R) → List (Job P R) → Type ℓ
  Extends [] after = Unit
  Extends (a ∷ before) [] = Lift {0, ℓ} ⊥
  Extends (a ∷ before) (b ∷ after) = Evolves a b × Extends before after

  pub Extends-refl : (rows : List (Job P R)) → Extends rows rows
  Extends-refl [] = tt
  Extends-refl (a ∷ rows) = (Evolves-refl a, Extends-refl rows)

  pub Extends-trans :
      (before between after : List (Job P R))
      → Extends before between
      → Extends between after
      → Extends before after
  Extends-trans [] between after p q = tt
  Extends-trans (a ∷ before) [] after p q = absurd p.lower
  Extends-trans (a ∷ before) (b ∷ between) [] p q = absurd q.lower
  Extends-trans (a ∷ before) (b ∷ between) (c ∷ after) p q =
      (Evolves-trans a b c p.0 q.0, Extends-trans before between after p.1 q.1)

  pub Extends-append : (rows more : List (Job P R)) → Extends rows (rows ++ more)
  Extends-append [] more = tt
  Extends-append (a ∷ rows) more = (Evolves-refl a, Extends-append rows more)

  Evolves-if :
      (b : Bool) (f : Job P R → Job P R) (x : Job P R)
      → (b ≡ true → Evolves x (f x))
      → Evolves x (if b then f x else x)
  Evolves-if true f x move = move refl
  Evolves-if false f x move = Evolves-refl x

  -- An update extends the table if it evolves each of the table's rows that it reaches.
  pub Extends-update_where :
      (p : Job P R → Bool) (f : Job P R → Job P R) (rows : List (Job P R))
      → ((x : Job P R) → Memᴰ x rows → p x ≡ true → Evolves x (f x))
      → Extends rows (update_where p f rows)
  unfolding update_where
  Extends-update_where p f [] move = tt
  Extends-update_where p f (x ∷ rows) move = (
    Evolves-if (p x) f x (move x (Memᴰ.head refl)),
    Extends-update_where p f rows (λ y m. move y (Memᴰ.tail m)),
  )
