-- ===== src/Connection/Calls.antt =====
-- app/database/connection.py: what the calls of a cursor add to the open transaction, with its one retry.
use inventory_logix_dashboar.Base.{
  ◌≡◌, refl, sym, ◌∙◌, ap, ◌⊎◌, inl, inr, Bool, true, false, Option, none, some, List, [], ◌∷◌,
  ◌++◌, if◌then◌else◌,
}
use mathlib.Core.List.{append_assoc, append-nil}
use inventory_logix_dashboar.Connection.{
  DbError, Statement, run, Step, execute, throw, Request, Result, is_stale, and_then, use_server,
  add_pending, call, rollback, new_conn, checkout, retry, retry_after, first_call, body,
}

module _ {ℓ} {S : Type ℓ} where
  -- The statements of the body, as far as they are calls.
  unfoldable pub statements : List (Step S) → List (Statement S)
  statements [] = []
  statements (execute s ∷ steps) = run s ∷ statements steps
  statements (throw e ∷ steps) = []

  -- A call adds its statements to the open transaction, or raises; it commits nothing.
  abbrev pub Adds : List (Statement S) → Request S → Result S → Type ℓ
  Adds added w (none, v) = (v.committed ≡ w.committed) × (v.pending ≡ w.pending ++ added)
  Adds added w (some e, v) = (v.committed ≡ w.committed) × (v.pending ≡ w.pending)

  call-Adds : (s : Statement S) (w : Request S) → Adds (s ∷ []) w (call s w)
  unfolding call
  call-Adds s w = served w.faults
    where
      served :
          (faults : List (Option DbError)) → Adds (s ∷ []) w (use_server faults (add_pending s) w)
      served [] = (refl, refl)
      served (none ∷ faults) = (refl, refl)
      served (some e ∷ faults) = (refl, refl)

  -- How calls end that have the given effect on the open transaction; a rolled back one is empty.
  abbrev pub Extends : List (Statement S) → Request S → Result S → Type ℓ
  Extends added w (none, v) = (v.committed ≡ w.committed) × (v.pending ≡ w.pending ++ added)
  Extends added w (some e, v) = v.committed ≡ w.committed

  Adds-Extends :
      (xs : List (Statement S)) (w : Request S) (r : Result S) → Adds xs w r → Extends xs w r
  Adds-Extends xs w (none, v) h = h
  Adds-Extends xs w (some e, v) h = h.0

  and_then-Extends :
      (xs ys : List (Statement S)) (w : Request S) (r : Result S) (k : Request S → Result S)
      → Extends xs w r
      → ((v : Request S) → Extends ys v (k v))
      → Extends (xs ++ ys) w (and_then r k)
  and_then-Extends xs ys w (some e, v) k h next = h
  and_then-Extends xs ys w (none, v) k h next = grown (k v) (next v)
    where
      grown : (r : Result S) → Extends ys v r → Extends (xs ++ ys) w r
      grown (none, u) g = (g.0 ∙ h.0, g.1 ∙ ap (λ p. p ++ ys) h.1 ∙ append_assoc w.pending xs ys)
      grown (some e, u) g = g ∙ h.0

  pub body-Extends :
      (steps : List (Step S)) (w : Request S) → Extends (statements steps) w (body steps w)
  unfolding body statements
  body-Extends [] w = (refl, sym (append-nil w.pending))
  body-Extends (throw e ∷ steps) w = refl
  body-Extends (execute s ∷ steps) w =
      and_then-Extends (run s ∷ []) (statements steps) w (call (run s) w) (body steps)
        (Adds-Extends (run s ∷ []) w (call (run s) w) (call-Adds (run s) w)) (body-Extends steps)

  -- What was open before is kept, or was rolled back; then come the given statements.
  abbrev pub Follows : List (Statement S) → List (Statement S) → List (Statement S) → Type ℓ
  Follows before added after =
      (kept : List (Statement S)) × ((kept ≡ before) ⊎ (kept ≡ [])) × (after ≡ kept ++ added)

  -- How the calls of a cursor end that may have changed the connection first.
  abbrev pub Opens : List (Statement S) → Request S → Result S → Type ℓ
  Opens added w (none, v) = (v.committed ≡ w.committed) × Follows w.pending added v.pending
  Opens added w (some e, v) = v.committed ≡ w.committed

  Opens-fresh :
      (added : List (Statement S)) (w v : Request S) (r : Result S)
      → v.committed ≡ w.committed
      → v.pending ≡ []
      → Extends added v r
      → Opens added w r
  Opens-fresh added w v (none, u) p q h = (h.0 ∙ p, ([], inr refl, h.1 ∙ ap (λ x. x ++ added) q))
  Opens-fresh added w v (some e, u) p q h = h ∙ p

  Opens-same :
      (added : List (Statement S)) (w : Request S) (r : Result S)
      → Extends added w r
      → Opens added w r
  Opens-same added w (none, v) h = (h.0, (w.pending, inl refl, h.1))
  Opens-same added w (some e, v) h = h

  pub and_then-Opens :
      (xs ys : List (Statement S)) (w : Request S) (r : Result S) (k : Request S → Result S)
      → Opens xs w r
      → ((v : Request S) → Extends ys v (k v))
      → Opens (xs ++ ys) w (and_then r k)
  and_then-Opens xs ys w (some e, v) k h next = h
  and_then-Opens xs ys w (none, v) k h next = grown (k v) (next v)
    where
      grown : (r : Result S) → Extends ys v r → Opens (xs ++ ys) w r
      grown (none, u) g =
          let (kept, which, after) = h.1 in
          (g.0 ∙ h.0, (kept, which, g.1 ∙ ap (λ p. p ++ ys) after ∙ append_assoc kept xs ys))
      grown (some e, u) g = g ∙ h.0

  -- A fresh connection has no open transaction.
  checked_out :
      (s : Statement S) (w : Request S)
      → Opens (s ∷ []) w (and_then (checkout (rollback w)) (call s))
  unfolding checkout rollback
  checked_out s w = served w.faults
    where
      again :
          (v : Request S) → v.committed ≡ w.committed → v.pending ≡ [] → Opens (s ∷ []) w (call s v)
      again v p q =
          Opens-fresh (s ∷ []) w v (call s v) p q
            (Adds-Extends (s ∷ []) v (call s v) (call-Adds s v))

      served :
          (faults : List (Option DbError))
          → Opens
              (s ∷ [])
              w
              (and_then (use_server faults new_conn (record w { pending = [] })) (call s))
      served [] = again _ refl refl
      served (none ∷ faults) = again _ refl refl
      served (some e ∷ faults) = refl

  Opens-moved :
      (added : List (Statement S)) (w v : Request S) (r : Result S)
      → v.committed ≡ w.committed
      → v.pending ≡ w.pending
      → Opens added v r
      → Opens added w r
  Opens-moved added w v (none, u) p q h =
      let (kept, which, after) = h.1 in
      (h.0 ∙ p, (kept, elim which [ inl same ↦ inl (same ∙ q) | inr gone ↦ inr gone ], after))
  Opens-moved added w v (some e, u) p q h = h ∙ p

  pub first_call-Opens : (s : Statement S) (w : Request S) → Opens (s ∷ []) w (first_call s w)
  unfolding first_call retry_after retry
  first_call-Opens s w = after (call s w) (call-Adds s w)
    where
      chosen :
          (b : Bool) (e : DbError) (v : Request S)
          → Opens (s ∷ []) v (if b then and_then (checkout (rollback v)) (call s) else (some e, v))
      chosen true e v = checked_out s v
      chosen false e v = refl

      after : (r : Result S) → Adds (s ∷ []) w r → Opens (s ∷ []) w (retry_after s r)
      after (none, v) h = Opens-same (s ∷ []) w (none, v) h
      after (some e, v) h = Opens-moved (s ∷ []) w v (retry s e v) h.0 h.1 (chosen (is_stale e) e v)
