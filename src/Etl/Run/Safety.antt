-- ===== src/Etl/Run/Safety.antt =====
-- app/database/etl.py, `run_etl` as a whole: every way it can end, under every schedule of failures.
use inventory_logix_dashboar.Base.{
  ℕ, ◌-◌, ◌≡◌, refl, sym, ◌∙◌, ap, ◌⊎◌, inl, inr, String, Bool, true, false, ◌||◌, List, leb,
  if◌then◌else◌, Bool-cases,
}
use mathlib.Core.Path.{subst}
use inventory_logix_dashboar.JobQueue.{PyException, Outcome, returned, raised}
use inventory_logix_dashboar.Etl.{watermark, write_state}
use inventory_logix_dashboar.Etl.Retry.{read_state-write_state}
use inventory_logix_dashboar.Etl.Facts.{Key}
use inventory_logix_dashboar.Etl.Facts.Groups.{Column}
use inventory_logix_dashboar.Etl.Dims.{Tables}
use inventory_logix_dashboar.Etl.Session.{
  World, M, then_do, use_db, commit, rollback, with_retry, set_state,
}
use inventory_logix_dashboar.Etl.Run.{
  Summary, skipped_run, run_stages, max_id, first_day, last_day, since, truncate, fetch, is_empty,
  run_incremental, run_rebuild, choose_run, after_procedures, finish, closed, locked_run, run_etl,
}
use inventory_logix_dashboar.Etl.Run.Stages.{
  Follows, Commits, commit-Commits, use_db-Follows, with_retry-Follows,
}
use inventory_logix_dashboar.Etl.Run.Watermark.{mark, IsLoaded, Safe, run_stages-Safe}

-- The days whose movements a run loads
unfoldable pub run_window : Bool → ℕ → Tables → ℕ × ℕ
run_window force today t =
    let ms = since (watermark t.etl_state) t.movements in
    if is_empty t.facts || force
    then (first_day (today - 90) t.movements, today)
    else (first_day today ms, last_day today ms)

-- What follows a use of the database: it is shown where that raises, and where it answers.
follow_then :
    {A B : Type 0} (op : Tables → Outcome (A × Tables)) (w : World) (k : A → M B)
    (Q : Outcome B × World → Type 0) (r : Outcome A × World)
    → Follows op w r
    → ((e : PyException) (v : World) → v.committed ≡ w.committed → Q (raised e, v))
    → ((a : A) (v : World)
        → op w.working ≡ returned (a, v.working)
        → v.committed ≡ w.committed
        → Q (k a v))
    → Q (then_do k r)
follow_then op w k Q (raised e, v) f left right = left e v f.1
follow_then op w k Q (returned a, v) f left right = right a v f.0 f.1

-- A property of what a test chooses
either :
    (Q : Outcome Summary × World → Type 0) (b : Bool) (x y : M Summary) (w : World)
    → (b ≡ true → Q (x w))
    → (b ≡ false → Q (y w))
    → Q ((if b then x else y) w)
either Q true x y w f g = f refl
either Q false x y w f g = g refl

lock_case :
    (Q : Outcome Summary × World → Type 0) (b : Bool) (x y : Outcome Summary × World)
    → Q x
    → Q y
    → Q (if b then x else y)
lock_case Q true x y p q = p
lock_case Q false x y p q = q

module _ (c : Column) (k : Key) (old : Tables) (start end : ℕ) where
  -- A skipped run leaves the tables; any other loads the window.
  abbrev Done : Bool → Tables → Type 0
  Done true t = t ≡ old
  Done false t = IsLoaded c k start end t

  -- How the whole run ends.
  abbrev pub EndsSafely : Outcome Summary × World → Type 0
  EndsSafely (raised e, v) =
      (mark v.committed ≡ mark old) ⊎ ((mark v.committed ≡ 0) ⊎ IsLoaded c k start end v.committed)
  EndsSafely (returned s, v) = Done s.skipped v.committed

  -- The same before the end, where the open transaction holds what is committed.
  abbrev Settled : Outcome Summary × World → Type 0
  Settled (raised e, v) = EndsSafely (raised e, v)
  Settled (returned s, v) = Done s.skipped v.committed × (v.working ≡ v.committed)

  Safe-Settled :
      (low : ℕ) (r : Outcome Summary × World)
      → (low ≡ mark old) ⊎ (low ≡ 0)
      → Safe c k (mark old) low start end r
      → Settled r
  Safe-Settled low (raised e, v) (inl same) (inl h) = inl h
  Safe-Settled low (raised e, v) (inr null) (inl h) = inl h
  Safe-Settled low (raised e, v) (inl same) (inr h) = inl (h ∙ same)
  Safe-Settled low (raised e, v) (inr null) (inr h) = inr (inl (h ∙ null))
  Safe-Settled low (returned s, v) l h = (subst (λ b. Done b v.committed) (sym h.0) h.1, h.2)

module _ (c : Column) (k : Key) (order_by : List String → List String) (today : ℕ) where
  stages-Settled :
      (old : Tables) (inc : Bool) (start end is ie low high : ℕ) (w : World)
      → w.committed ≡ old
      → (low ≡ mark old) ⊎ (low ≡ 0)
      → high ≡ max_id w.working.movements
      → Settled c k old start end (run_stages order_by inc start end is ie low high w)
  stages-Settled old inc start end is ie low high w same l h =
      Safe-Settled c k old start end low (run_stages order_by inc start end is ie low high w) l (
        subst (λ n. Safe c k n low start end (run_stages order_by inc start end is ie low high w))
          (ap mark same) (run_stages-Safe c k order_by inc start end is ie low high w h))

  incremental-Settled :
      (t : Tables) (w : World)
      → w.working ≡ t
      → w.committed ≡ t
      → let ms = since (watermark t.etl_state) t.movements in
        Settled c k t (first_day today ms) (last_day today ms) (run_incremental order_by today t w)
  unfolding run_incremental
  incremental-Settled t w opened same =
      let last_id = watermark t.etl_state in
      let ms = since last_id t.movements in
      elim (Bool-cases (leb (max_id t.movements) last_id)) [
        | inl none_new ↦ rw none_new (same, opened ∙ sym same)
        | inr some_new ↦ rw some_new (
            stages-Settled t true (first_day today ms) (last_day today ms) (first_day today ms)
              today last_id (max_id t.movements) w same (inl refl)
              (ap (λ (x : Tables). max_id x.movements) (sym opened)))
      ]

  truncate-keeps :
      (t u : Tables) (a : Unit {0}) → truncate t ≡ returned (a, u) → u.movements ≡ t.movements
  unfolding truncate
  truncate-keeps t u a h = cc

  rebuild-Settled :
      (t : Tables) (w : World)
      → w.working ≡ t
      → w.committed ≡ t
      → Settled c k t (first_day (today - 90) t.movements) today (run_rebuild order_by today t w)
  unfolding run_rebuild
  rebuild-Settled t w opened same =
      let start = first_day (today - 90) t.movements in
      follow_then truncate w _ (Settled c k t start today) (use_db truncate w)
        (use_db-Follows truncate w) (λ e v s. inl (ap mark (s ∙ same)))
        (λ a v d s.
          stages-Settled t false start today (today - 29) today 0 (max_id t.movements) v (s ∙ same)
            (inr refl)
            (ap max_id (
              sym (
                truncate-keeps w.working v.working a d ∙ ap (λ (x : Tables). x.movements) opened))))

  choose-Settled :
      (force : Bool) (t : Tables) (w : World)
      → w.working ≡ t
      → w.committed ≡ t
      → Settled c k t
          (run_window force today t).0
          (run_window force today t).1
          (choose_run order_by force today t w)
  unfolding choose_run run_window
  choose-Settled force t w opened same = elim (Bool-cases (is_empty t.facts || force)) [
    | inl full ↦ rw full (rebuild-Settled t w opened same)
    | inr new ↦ rw new (incremental-Settled t w opened same)
  ]

  -- Storing the day of the run leaves the watermark.
  mark-last_run : (t : Tables) → watermark (write_state "last_run_at" today t.etl_state) ≡ mark t
  unfolding watermark
  mark-last_run t =
      rw (read_state-write_state "last_run_at" "last_movement_id" "0" today t.etl_state)

  abbrev stamped : Tables → Tables
  stamped t = record t { etl_state = write_state "last_run_at" today t.etl_state }

  stamped_by :
      (w v : World) (x : Unit {0})
      → set_state "last_run_at" today w.working ≡ returned (x, v.working)
      → v.working ≡ stamped w.working
  unfolding set_state
  stamped_by w v x d = cc

  module _ (old : Tables) (start end : ℕ) where
    procedures_end :
        (s : Summary) (t : Tables) (w : World) (r : Outcome Tables × World)
        → s.skipped ≡ false
        → IsLoaded c k start end t
        → w.committed ≡ stamped t
        → Follows fetch w r
        → EndsSafely c k old start end (after_procedures s r)
    unfolding after_procedures rollback
    procedures_end s t w (returned a, v) ran h e f =
        subst (λ b. Done c k old start end b v.committed) (sym ran)
          (subst (IsLoaded c k start end) (sym (f.1 ∙ e)) (mark-last_run t ∙ h.0, h.1))
    procedures_end s t w (raised x, v) ran h e f =
        subst (λ b. Done c k old start end b v.committed) (sym ran)
          (subst (IsLoaded c k start end) (sym (f.1 ∙ e)) (mark-last_run t ∙ h.0, h.1))

    commit_end :
        (s : Summary) (t : Tables) (w : World) (r : Outcome (Unit {0}) × World)
        → s.skipped ≡ false
        → IsLoaded c k start end t
        → w.working ≡ stamped t
        → w.committed ≡ t
        → Commits w r
        → EndsSafely c k old start end (then_do (λ x v. after_procedures s (use_db fetch v)) r)
    commit_end s t w (raised e, v) ran h p q d =
        inr (inr (subst (IsLoaded c k start end) (sym (d ∙ q)) h))
    commit_end s t w (returned x, v) ran h p q d =
        procedures_end s t v (use_db fetch v) ran h (d.0 ∙ p) (use_db-Follows fetch v)

    finish_end :
        (s : Summary) (w : World)
        → Done c k old start end s.skipped w.committed
        → w.working ≡ w.committed
        → EndsSafely c k old start end (finish today s w)
    unfolding finish
    finish_end s w h same =
        either (EndsSafely c k old start end) s.skipped _ _ w (λ skip. h)
          (λ ran.
            let loaded : IsLoaded c k start end w.committed =
              subst (λ b. Done c k old start end b w.committed) ran h in
            follow_then (set_state "last_run_at" today) w _
              (λ r.
                EndsSafely c k old start end
                  (then_do (λ x v. after_procedures s (use_db fetch v)) r))
              (use_db (set_state "last_run_at" today) w)
              (use_db-Follows (set_state "last_run_at" today) w)
              (λ e v q. inr (inr (subst (IsLoaded c k start end) (sym q) loaded)))
              (λ x v d q.
                commit_end s w.committed v (commit v) ran loaded
                  (stamped_by w v x d ∙ ap stamped same) q (commit-Commits v)))

    run_end :
        (r : Outcome Summary × World)
        → Settled c k old start end r
        → EndsSafely c k old start end (then_do (finish today) r)
    run_end (raised e, v) h = h
    run_end (returned s, v) h = finish_end s v h.0 h.1

  fetched : (t a u : Tables) → fetch t ≡ returned (a, u) → (a ≡ t) × (u ≡ t)
  fetched t a u h = (cc, cc)

  locked_run-EndsSafely :
      (force : Bool) (t : Tables) (w : World)
      → w.working ≡ t
      → w.committed ≡ t
      → EndsSafely c k t
          (run_window force today t).0
          (run_window force today t).1
          (locked_run order_by force today w)
  unfolding locked_run
  locked_run-EndsSafely force t w opened same =
      let start = (run_window force today t).0 in
      let end = (run_window force today t).1 in
      lock_case (EndsSafely c k t start end) w.is_locked (returned skipped_run, w) _ same
        (run_end t start end (then_do (choose_run order_by force today) (use_db fetch w)) (
          follow_then fetch w (choose_run order_by force today) (Settled c k t start end)
            (use_db fetch w) (use_db-Follows fetch w) (λ e v s. inl (ap mark (s ∙ same)))
            (λ a v d s.
              let (p, q) = fetched w.working a v.working d in
              subst (λ (x : Tables). Settled c k t start end (choose_run order_by force today x v))
                (sym (p ∙ opened)) (choose-Settled force t v (q ∙ opened) (s ∙ same)))))

  closed-EndsSafely :
      (old : Tables) (start end : ℕ) (r : Outcome Summary × World)
      → EndsSafely c k old start end r
      → EndsSafely c k old start end (closed r)
  unfolding closed rollback
  closed-EndsSafely old start end (raised e, v) h = h
  closed-EndsSafely old start end (returned s, v) h = h

-- Where no other transaction writes to the tables while it runs: whatever fails during `run_etl`, and
-- whatever lock is held, a run that is skipped leaves the committed tables as they were; any other run that
-- answers has moved the watermark to the last movement, and then at every key whose day is in the window of
-- the run each quantity and value of the facts is the sum, by type and with the price of the dimension,
-- over the movements that are not deleted; a run that raises has done the same, or has left the committed
-- watermark where it was or at 0.
pub run_etl-EndsSafely :
    (c : Column) (k : Key) (order_by : List String → List String) (force : Bool) (today : ℕ)
    (w : World)
    → EndsSafely c k w.committed
        (run_window force today w.committed).0
        (run_window force today w.committed).1
        (run_etl order_by force today w)
unfolding run_etl rollback
run_etl-EndsSafely c k order_by force today w =
    let old = w.committed in
    let start = (run_window force today old).0 in
    let end = (run_window force today old).1 in
    let Q = EndsSafely c k old start end in
    let w0 = rollback w in
    closed-EndsSafely c k order_by today old start end _ (
      follow_then fetch w0 (λ x. use_db fetch)
        (λ r. Q (then_do (λ x. locked_run order_by force today) r)) (with_retry (use_db fetch) w0)
        (with_retry-Follows fetch w0) (λ e v s. inl (ap mark s))
        (λ a v d s.
          let (p, q) = fetched c k order_by today w0.working a v.working d in
          follow_then fetch v (λ x. locked_run order_by force today) Q (use_db fetch v)
            (use_db-Follows fetch v) (λ e u s'. inl (ap mark (s' ∙ s)))
            (λ b u d' s'.
              let (p', q') = fetched c k order_by today v.working b u.working d' in
              locked_run-EndsSafely c k order_by today force old u (q' ∙ q) (s' ∙ s))))
