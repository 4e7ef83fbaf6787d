-- ===== src/Cache/Herd.antt =====
-- app/utils/cache.py, `get_or_set`: threads that miss together do not all run the producer.
use inventory_logix_dashboar.Base.{
  ℕ, ◌+◌, ◌≤◌, ◌<◌, String, ◌≡◌, ◌≢◌, refl, sym, ◌∙◌, ap, ◌⊎◌, inl, inr, Option, none, some, List,
  [], ◌∷◌, arith, ◌==◌, ==_iff, leb, Bool-cases, Option-cases, All,
}
use inventory_logix_dashboar.Base.Dict.{lookup}
use inventory_logix_dashboar.Cache.{TtlCache, get, set}
use inventory_logix_dashboar.Cache.Lookup.{lookup-set_self}
use inventory_logix_dashboar.Cache.Flights.{
  Phase, outside, waiting, producing, Flight, Move, look, enter, publish, raise, set_phase, looked,
  entered, released, at_rest, move, move_all, Lasts, get-Lasts,
}

no_hit {ℓ} : {A : Type ℓ} (a : A) → none ≢ some a
no_hit a e = absurd (ground arith)

-- How many calls of the producer are under way
abbrev pub busy : Option ℕ → ℕ
busy none = 0
busy (some t) = 1

module _ {ℓ} {V : Type ℓ} (key : String) (start ttl : ℕ) where
  -- The step falls into the lifetime of whatever is stored from the start on.
  abbrev pub IsInTime : Move V → Type 0
  IsInTime (look t now) = (start ≤ now) × (now < start + ttl)
  IsInTime (enter t now) = (start ≤ now) × (now < start + ttl)
  IsInTime (publish t v now) = (start ≤ now) × (now < start + ttl)
  IsInTime (raise t) = Unit

  -- Either no value is there yet, and the calls are the failed ones and the one under way; or the
  -- entry lasts, and there was one call more than failures.
  abbrev Counts : Flight V → Type ℓ
  Counts st =
      (st.calls ≡ st.failures + busy st.lock)
      ⊎ (Lasts key (start + ttl) st.cache × (st.lock ≡ none) × (st.calls ≡ st.failures + 1))

  -- Who runs the producer holds the lock.
  abbrev Holds : Flight V → Type 0
  Holds st = (t : ℕ) → st.phase t ≡ producing → st.lock ≡ some t

  abbrev Fits : TtlCache V → Type 0
  Fits c = (1 ≤ c.max_entries) × (c.ttl ≡ ttl)

  get-Fits : (now : ℕ) (c : TtlCache V) → Fits c → Fits (get key now c).1
  unfolding get
  get-Fits now c h = elim (Option-cases (lookup key c.store)) [
    | inl absent ↦ rw absent h
    | inr (e, found) ↦ elim (Bool-cases (leb e.expiry now)) [
      | inl dead ↦ rw (found, dead) h
      | inr live ↦ rw (found, live) h
    ]
  ]

  set-Lasts :
      (v : V) (now : ℕ) (c : TtlCache V)
      → Fits c
      → start ≤ now
      → Fits (set key v none now c) × Lasts key (start + ttl) (set key v none now c)
  unfolding set
  set-Lasts v now c h le = (h, (_, lookup-set_self key v none now c h.0, omega (arith, h.1)))

  Holds-set_phase :
      (st : Flight V) (t : ℕ) (p : Phase)
      → p ≢ producing
      → Holds st
      → (u : ℕ) → set_phase t p st.phase u ≡ producing
      → st.lock ≡ some u
  unfolding set_phase
  Holds-set_phase st t p ne h u e = elim (Bool-cases (u == t)) [
    | inl same ↦ absurd (ne (rw same at e))
    | inr other ↦ h u (rw other at e)
  ]

  abbrev IsCalm : Flight V → Type ℓ
  IsCalm st = Fits st.cache × Holds st × Counts st

  -- What a look at the cache gives: the limits stay, and a lasting entry is a hit and lasts.
  abbrev Looks : TtlCache V → Option V × TtlCache V → Type ℓ
  Looks c r =
      Fits r.1
      × (Lasts key (start + ttl) c → (v : V) × (r.0 ≡ some v) × Lasts key (start + ttl) r.1)

  get-Looks : (now : ℕ) (c : TtlCache V) → Fits c → now < start + ttl → Looks c (get key now c)
  get-Looks now c fits lt = (get-Fits now c fits, get-Lasts key (start + ttl) now c lt)

  takes :
      (t : ℕ) (st : Flight V)
      → st.lock ≡ none
      → Holds st
      → (u : ℕ) → set_phase t producing st.phase u ≡ producing
      → some t ≡ some u
  unfolding set_phase
  takes t st free holds u e = elim (Bool-cases (u == t)) [
    | inl same ↦ ap some (sym ((==_iff u t).0 same))
    | inr other ↦ cc (holds u (rw other at e), free)
  ]

  gives_back :
      (t : ℕ) (st : Flight V)
      → st.lock ≡ some t
      → Holds st
      → (u : ℕ) → set_phase t outside st.phase u ≡ producing
      → none ≡ some u
  unfolding set_phase
  gives_back t st held holds u e = elim (Bool-cases (u == t)) [
    | inl same ↦ cc (rw same at e)
    | inr other ↦
        let mine : t ≡ u = cc (holds u (rw other at e), held) in
        cc ((==_iff u t).1 (sym mine), other)
  ]

  looked-IsCalm :
      (t : ℕ) (p : Phase) (r : Option V × TtlCache V) (st : Flight V)
      → IsCalm st
      → Looks st.cache r
      → IsCalm (looked t p r st)
  unfolding looked
  looked-IsCalm t outside (some v, c) st (fits, holds, inl h) (kept, lasting) = (kept, holds, inl h)
  looked-IsCalm t outside (some v, c) st (fits, holds, inr h) (kept, lasting) =
      (kept, holds, inr ((lasting h.0).2, h.1, h.2))
  looked-IsCalm t outside (none, c) st (fits, holds, inl h) (kept, lasting) =
      (kept, Holds-set_phase st t waiting (λ e. cc) holds, inl h)
  looked-IsCalm t outside (none, c) st (fits, holds, inr h) (kept, lasting) =
      let (v, hit, rest) = lasting h.0 in absurd (no_hit v hit)
  looked-IsCalm t waiting r st calm looks = calm
  looked-IsCalm t producing r st calm looks = calm

  entered-IsCalm :
      (t : ℕ) (p : Phase) (l : Option ℕ) (r : Option V × TtlCache V) (st : Flight V)
      → st.lock ≡ l
      → IsCalm st
      → Looks st.cache r
      → IsCalm (entered t p l r st)
  unfolding entered
  entered-IsCalm t waiting none (some v, c) st free (fits, holds, inl h) (kept, lasting) =
      (kept, Holds-set_phase st t outside (λ e. cc) holds, inl h)
  entered-IsCalm t waiting none (some v, c) st free (fits, holds, inr h) (kept, lasting) =
      (kept, Holds-set_phase st t outside (λ e. cc) holds, inr ((lasting h.0).2, h.1, h.2))
  entered-IsCalm t waiting none (none, c) st free (fits, holds, inl h) (kept, lasting) =
      (kept, takes t st free holds, inl (ground (arith, ap busy free)))
  entered-IsCalm t waiting none (none, c) st free (fits, holds, inr h) (kept, lasting) =
      let (v, hit, rest) = lasting h.0 in absurd (no_hit v hit)
  entered-IsCalm t waiting (some u) r st free calm looks = calm
  entered-IsCalm t outside l r st free calm looks = calm
  entered-IsCalm t producing l r st free calm looks = calm

  -- The thread that had the lock gives it back.
  released-IsCalm :
      (t failed : ℕ) (c : TtlCache V) (p : Phase) (st : Flight V)
      → st.phase t ≡ p
      → IsCalm st
      → Fits c
      → ((failed ≡ 0) × Lasts key (start + ttl) c) ⊎ (failed ≡ 1)
      → IsCalm (released t c failed p st)
  unfolding released
  released-IsCalm t failed c outside st here calm fits way = calm
  released-IsCalm t failed c waiting st here calm fits way = calm
  released-IsCalm t failed c producing st here (_, holds, inl h) fits (inl (none_failed, lasts)) = (
    fits,
    gives_back t st (holds t here) holds,
    inr (lasts, refl, ground (arith, ap busy (holds t here))),
  )
  released-IsCalm t failed c producing st here (_, holds, inl h) fits (inr one) =
      (fits, gives_back t st (holds t here) holds, inl (ground (arith, ap busy (holds t here))))
  released-IsCalm t failed c producing st here (_, holds, inr h) fits way =
      absurd (no_hit t (sym h.1 ∙ holds t here))

  move-IsCalm : (m : Move V) (st : Flight V) → IsInTime m → IsCalm st → IsCalm (move key m st)
  unfolding move
  move-IsCalm (look t now) st time calm =
      looked-IsCalm t (st.phase t) (get key now st.cache) st calm
        (get-Looks now st.cache calm.0 time.1)
  move-IsCalm (enter t now) st time calm =
      entered-IsCalm t (st.phase t) st.lock (get key now st.cache) st refl calm
        (get-Looks now st.cache calm.0 time.1)
  move-IsCalm (publish t v now) st time calm =
      let (fits, lasts) = set-Lasts v now st.cache calm.0 time.0 in
      released-IsCalm t 0 (set key v none now st.cache) (st.phase t) st refl calm fits
        (inl (refl, lasts))
  move-IsCalm (raise t) st time calm =
      released-IsCalm t 1 st.cache (st.phase t) st refl calm calm.0 (inr refl)

  move_all-IsCalm :
      (moves : List (Move V)) (st : Flight V)
      → All IsInTime moves
      → IsCalm st
      → IsCalm (move_all key moves st)
  unfolding move_all
  move_all-IsCalm [] st times calm = calm
  move_all-IsCalm (m ∷ moves) st times calm =
      move_all-IsCalm moves (move key m st) times.1 (move-IsCalm m st times.0 calm)

  Counts-le : (st : Flight V) (l : Option ℕ) → st.lock ≡ l → Counts st → st.calls ≤ st.failures + 1
  Counts-le st none free (inl h) = omega (arith, h, ap busy free)
  Counts-le st (some t) held (inl h) = omega (arith, h, ap busy held)
  Counts-le st l lock (inr h) = omega (arith, h.2)

  -- However the steps of any number of threads come that call `get_or_set` for one key of a cache with
  -- room, while every step falls within one lifetime and nothing else writes to the cache: the
  -- producer is called at most once more than it raises.
  pub calls-move_all-le :
      (moves : List (Move V)) (c : TtlCache V)
      → 1 ≤ c.max_entries
      → c.ttl ≡ ttl
      → All IsInTime moves
      → (move_all key moves (at_rest c)).calls ≤ (move_all key moves (at_rest c)).failures + 1
  calls-move_all-le moves c room same times =
      let st = move_all key moves (at_rest c) in
      Counts-le st st.lock refl
        (move_all-IsCalm moves (at_rest c) times ((room, same), (λ t e. cc), inl refl)).2
