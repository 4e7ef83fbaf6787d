-- ===== src/Connection/Atomic.antt =====
-- app/database/connection.py: a block of `get_cursor` commits all of its statements once, or none.
use inventory_logix_dashboar.Base.{
  ℕ, ◌≡◌, refl, ◌∙◌, ap, ◌⊎◌, inl, inr, Bool, true, false, Option, none, some, List, [], ◌∷◌, ◌++◌,
}
use inventory_logix_dashboar.Connection.{
  DbError, Statement, set_user, Step, Request, Result, and_then, use_server, rollback,
  interface_error, operational_error, query_canceled, pool_error, other_error, add_alert,
  alert_pool_exhausted, alerted, all_committed, commit, new_conn, checkout, connect_if,
  get_connection, first_call, body, commit_if, guarded, with_cursor,
}
use inventory_logix_dashboar.Connection.Calls.{
  statements, Follows, Opens, and_then-Opens, first_call-Opens, body-Extends,
}

module _ {ℓ} {S : Type ℓ} where
  -- How a block ends: an exception commits nothing and leaves nothing open on a connection that there
  -- was; an answer has committed what was open together with the block's statements, or, with no commit,
  -- has left both open.
  abbrev pub IsAtomic : Bool → List (Statement S) → Request S → Result S → Type ℓ
  IsAtomic commits added w (some e, v) =
      (v.committed ≡ w.committed) × ((v.pending ≡ []) ⊎ ((w.conn ≡ none) × (v.pending ≡ w.pending)))
  IsAtomic true added w (none, v) =
      (after : List (Statement S)) × Follows w.pending added after
      × (v.committed ≡ w.committed ++ after)
      × (v.pending ≡ [])
  IsAtomic false added w (none, v) = (v.committed ≡ w.committed) × Follows w.pending added v.pending

  -- The same before the rollback of an exception.
  abbrev IsDone : Bool → List (Statement S) → Request S → Result S → Type ℓ
  IsDone commits added w (some e, v) = v.committed ≡ w.committed
  IsDone commits added w (none, v) = IsAtomic commits added w (none, v)

  commit-IsDone :
      (commits : Bool) (added : List (Statement S)) (w v : Request S)
      → v.committed ≡ w.committed
      → Follows w.pending added v.pending
      → IsDone commits added w (commit_if commits v)
  unfolding commit_if commit
  commit-IsDone false added w v same f = (same, f)
  commit-IsDone true added w v same f = served v.faults
    where
      served :
          (faults : List (Option DbError)) → IsDone true added w (use_server faults all_committed v)
      served [] = (v.pending, f, ap (λ c. c ++ v.pending) same, refl)
      served (none ∷ faults) = (v.pending, f, ap (λ c. c ++ v.pending) same, refl)
      served (some e ∷ faults) = same

  guarded-IsAtomic :
      (commits : Bool) (added : List (Statement S)) (w : Request S) (r : Result S)
      → IsDone commits added w r
      → IsAtomic commits added w (guarded r)
  unfolding guarded rollback
  guarded-IsAtomic commits added w (some e, v) h = (h, inl refl)
  guarded-IsAtomic true added w (none, v) h = h
  guarded-IsAtomic false added w (none, v) h = h

  calls-IsDone :
      (commits : Bool) (added : List (Statement S)) (w : Request S) (r : Result S)
      → Opens added w r
      → IsDone commits added w (and_then r (commit_if commits))
  calls-IsDone commits added w (none, v) h = commit-IsDone commits added w v h.0 h.1
  calls-IsDone commits added w (some e, v) h = h

  Follows-moved :
      (before old added after : List (Statement S))
      → (before ≡ old) ⊎ (before ≡ [])
      → Follows before added after
      → Follows old added after
  Follows-moved before old added after q (kept, inl same, e) =
      (kept, elim q [ inl p ↦ inl (same ∙ p) | inr p ↦ inr (same ∙ p) ], e)
  Follows-moved before old added after q (kept, inr gone, e) = (kept, inr gone, e)

  IsDone-moved :
      (commits : Bool) (added : List (Statement S)) (w v : Request S) (r : Result S)
      → v.committed ≡ w.committed
      → (v.pending ≡ w.pending) ⊎ (v.pending ≡ [])
      → IsDone commits added v r
      → IsDone commits added w r
  IsDone-moved commits added w v (some e, u) p q h = h ∙ p
  IsDone-moved true added w v (none, u) p q h =
      let (after, f, stored, empty) = h in
      (
        after,
        Follows-moved v.pending w.pending added after q f,
        stored ∙ ap (λ c. c ++ after) p,
        empty,
      )
  IsDone-moved false added w v (none, u) p q h =
      (h.0 ∙ p, Follows-moved v.pending w.pending added u.pending q h.1)

  -- How `get_connection` ends: what was open stays, or the connection is fresh.
  abbrev Connects : Request S → Result S → Type ℓ
  Connects w (some e, v) = (v.committed ≡ w.committed) × (w.conn ≡ none) × (v.pending ≡ w.pending)
  Connects w (none, v) = (v.committed ≡ w.committed) × ((v.pending ≡ w.pending) ⊎ (v.pending ≡ []))

  alert_keeps :
      (w : Request S)
      → ((alert_pool_exhausted w).committed ≡ w.committed)
        × ((alert_pool_exhausted w).pending ≡ w.pending)
  unfolding alert_pool_exhausted
  alert_keeps w = served w.faults
    where
      served :
          (faults : List (Option DbError))
          → ((use_server faults add_alert w).1.committed ≡ w.committed)
            × ((use_server faults add_alert w).1.pending ≡ w.pending)
      served [] = (refl, refl)
      served (none ∷ faults) = (refl, refl)
      served (some e ∷ faults) = (refl, refl)

  alerted-Connects : (w : Request S) (r : Result S) → Connects w r → Connects w (alerted r)
  unfolding alerted
  alerted-Connects w (none, v) h = h
  alerted-Connects w (some pool_error, v) h =
      let (committed_same, pending_same) = alert_keeps v in
      (committed_same ∙ h.0, h.1, pending_same ∙ h.2)
  alerted-Connects w (some interface_error, v) h = h
  alerted-Connects w (some operational_error, v) h = h
  alerted-Connects w (some query_canceled, v) h = h
  alerted-Connects w (some other_error, v) h = h

  get_connection-Connects : (w : Request S) → Connects w (get_connection w)
  unfolding get_connection connect_if checkout
  get_connection-Connects w = chosen w.conn refl
    where
      served :
          w.conn ≡ none
          → (faults : List (Option DbError)) → Connects w (use_server faults new_conn w)
      served fresh [] = (refl, inr refl)
      served fresh (none ∷ faults) = (refl, inr refl)
      served fresh (some e ∷ faults) = (refl, fresh, refl)

      chosen : (o : Option ℕ) → w.conn ≡ o → Connects w (connect_if o w)
      chosen none fresh =
          alerted-Connects w (use_server w.faults new_conn w) (served fresh w.faults)
      chosen (some n) old = (refl, inl refl)

-- Whatever fails in a block of `get_cursor`, and also where the cursor changed to a fresh connection: if
-- the block raises, nothing more is committed and nothing is left open, unless there was no connection and
-- none was got; if a block with `commit` answers, what was open on the
-- connection, if it was kept, is committed together with the setting of the user and each statement
-- of the body once and in order, and nothing is left open; without `commit` nothing is committed.
pub with_cursor-IsAtomic {ℓ} :
    {S : Type ℓ} (user : Option ℕ) (commits : Bool) (steps : List (Step S)) (w : Request S)
    → IsAtomic commits (set_user user ∷ statements steps) w (with_cursor user commits steps w)
unfolding with_cursor
with_cursor-IsAtomic {S} user commits steps w =
    connected (get_connection w) (get_connection-Connects w)
  where
    added : List (Statement S)
    added = set_user user ∷ statements steps

    connected :
        (r : Result S)
        → Connects w r
        → IsAtomic commits added w (
            and_then r (λ v. guarded (
              and_then (and_then (first_call (set_user user) v) (body steps)) (commit_if commits))))
    connected (some e, v) h = (h.0, inr (h.1, h.2))
    connected (none, v) h =
        let calls = and_then (first_call (set_user user) v) (body steps) in
        guarded-IsAtomic commits added w (and_then calls (commit_if commits)) (
          IsDone-moved commits added w v (and_then calls (commit_if commits)) h.0 h.1 (
            calls-IsDone commits added v calls (
              and_then-Opens (set_user user ∷ []) (statements steps) v
                (first_call (set_user user) v) (body steps) (first_call-Opens (set_user user) v)
                (body-Extends steps))))
