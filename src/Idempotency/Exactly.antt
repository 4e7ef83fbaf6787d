-- ===== src/Idempotency/Exactly.antt =====
-- What the keys guarantee: while one request runs its view no other with its key does, and once its
-- response is stored it is the answer.
use inventory_logix_dashboar.Base.{
  ℕ, String, ◌≡◌, refl, ap, ◌∙◌, Bool, true, false, not, ◌&&◌, ◌||◌, Option, none, some, List, [],
  ◌∷◌, arith, ◌==◌, str_eq, eq_iff, keep_if, is_some, Bool-cases, Option-cases, inl, inr, All,
}
use inventory_logix_dashboar.Idempotency.{
  Cached, KeyRow, ViewResult, Decision, run_view, in_progress, replayed, envelope, redirect_to,
  release_if, is_for, find_key, check_idempotency, reserve_idempotency, record_idempotency,
  release_idempotency, arrive, cacheable, store, settle,
}
use inventory_logix_dashboar.Idempotency.Keys.{
  find_key-append, find_key-snoc, find_key-update_where, find_key-release, find_key-recorded,
}

-- A step of a request that uses some key.
pub data Step {ℓ} (D : Type ℓ) : Type ℓ where
  arrives : String → ℕ → Step D
  settles : ViewResult D → Bool → Bool → String → ℕ → Step D

flip_true : (b : Bool) → not b ≡ true → b ≡ false
flip_true true h = cc
flip_true false h = refl

module _ {ℓ} {D : Type ℓ} where
  unfoldable pub run : List (Step D) → List (KeyRow D) → List (KeyRow D)
  run [] rows = rows
  run (arrives key user_id ∷ steps) rows = run steps (arrive key user_id rows).1
  run (settles result saves frees key user_id ∷ steps) rows =
      run steps (settle result saves frees key user_id rows)

  -- The step is not the end of a request with this key and user.
  abbrev pub is_foreign : String → ℕ → Step D → Bool
  is_foreign key user_id (arrives k u) = true
  is_foreign key user_id (settles result saves frees k u) = not (str_eq k key && u == user_id)

  decision_of : Option (Option (Cached D)) → Decision D
  decision_of none = run_view
  decision_of (some none) = in_progress
  decision_of (some (some cached)) = replayed cached

  arrive-decision :
      (key : String) (user_id : ℕ) (rows : List (KeyRow D))
      → (arrive key user_id rows).0 ≡ decision_of (find_key key user_id rows)
  unfolding arrive reserve_idempotency check_idempotency decision_of
  arrive-decision key user_id rows = elim (Option-cases (find_key key user_id rows)) [
    | inl fresh ↦ rw fresh refl
    | inr (none, taken) ↦ rw (taken, taken) refl
    | inr (some (redirect_to location), taken) ↦ rw (taken, taken) refl
    | inr (some (envelope payload status message), taken) ↦ rw (taken, taken) refl
  ]

  arrive-keeps :
      (key k : String) (user_id u : ℕ) (rows : List (KeyRow D)) (o : Option (Cached D))
      → find_key key user_id rows ≡ some o
      → find_key key user_id (arrive k u rows).1 ≡ some o
  unfolding arrive reserve_idempotency
  arrive-keeps key k user_id u rows o h = elim (Bool-cases (is_some (find_key k u rows))) [
    | inl taken ↦ rw taken h
    | inr fresh ↦ rw fresh (find_key-append key user_id _ rows o h)
  ]

  record-keeps :
      (key k : String) (user_id u : ℕ) (cached : Cached D) (rows : List (KeyRow D))
      (o : Option (Cached D))
      → (str_eq k key && u == user_id) ≡ false
      → find_key key user_id rows ≡ some o
      → find_key key user_id (record_idempotency k u cached rows) ≡ some o
  unfolding record_idempotency
  record-keeps key k user_id u cached rows o apart h =
      elim (Bool-cases (is_some (find_key k u rows))) [
        | inl taken ↦ rw taken (find_key-update_where key k user_id u cached rows o apart h)
        | inr fresh ↦ rw fresh (find_key-append key user_id _ rows o h)
      ]

  release_if-keeps :
      (key k : String) (user_id u : ℕ) (frees : Bool) (rows : List (KeyRow D))
      (o : Option (Cached D))
      → (str_eq k key && u == user_id) ≡ false
      → find_key key user_id rows ≡ some o
      → find_key key user_id (release_if frees k u rows) ≡ some o
  unfolding release_if
  release_if-keeps key k user_id u true rows o apart h =
      find_key-release key k user_id u rows o apart h
  release_if-keeps key k user_id u false rows o apart h = h

  store-keeps :
      (key k : String) (user_id u : ℕ) (c : Option (Cached D)) (saves frees : Bool)
      (rows : List (KeyRow D)) (o : Option (Cached D))
      → (str_eq k key && u == user_id) ≡ false
      → find_key key user_id rows ≡ some o
      → find_key key user_id (store c saves frees k u rows) ≡ some o
  unfolding store
  store-keeps key k user_id u none saves frees rows o apart h =
      release_if-keeps key k user_id u frees rows o apart h
  store-keeps key k user_id u (some cached) true frees rows o apart h =
      record-keeps key k user_id u cached rows o apart h
  store-keeps key k user_id u (some cached) false frees rows o apart h =
      release_if-keeps key k user_id u frees rows o apart h

  run-keeps :
      (key : String) (user_id : ℕ) (steps : List (Step D)) (rows : List (KeyRow D))
      (o : Option (Cached D))
      → All (λ s. is_foreign key user_id s ≡ true) steps
      → find_key key user_id rows ≡ some o
      → find_key key user_id (run steps rows) ≡ some o
  unfolding run settle
  run-keeps key user_id [] rows o all h = h
  run-keeps key user_id (arrives k u ∷ steps) rows o all h =
      run-keeps key user_id steps (arrive k u rows).1 o all.1
        (arrive-keeps key k user_id u rows o h)
  run-keeps key user_id (settles result saves frees k u ∷ steps) rows o all h =
      run-keeps key user_id steps (store (cacheable result) saves frees k u rows) o all.1
        (store-keeps key k user_id u (cacheable result) saves frees rows o (flip_true _ all.0) h)

  is_for_self :
      (key : String) (user_id : ℕ) (response : Option (Cached D))
      → is_for key user_id (record { key = key; user_id = user_id; response = response }) ≡ true
  unfolding is_for
  is_for_self key user_id response = ground (arith, eq_iff key key)

  reserved :
      (key : String) (user_id : ℕ) (rows : List (KeyRow D))
      → find_key key user_id rows ≡ none
      → find_key key user_id (arrive key user_id rows).1 ≡ some none
  unfolding arrive reserve_idempotency
  reserved key user_id rows fresh =
      rw fresh (find_key-snoc key user_id _ rows fresh (is_for_self key user_id none))

  -- For a key with no row: the first request runs its view, and until it ends, whatever other
  -- requests arrive and whatever requests with other keys end, another request with the key is
  -- told to wait.
  pub one_at_a_time :
      (key : String) (user_id : ℕ) (rows : List (KeyRow D)) (steps : List (Step D))
      → find_key key user_id rows ≡ none
      → All (λ s. is_foreign key user_id s ≡ true) steps
      → ((arrive key user_id rows).0 ≡ run_view)
        × ((arrive key user_id (run steps (arrive key user_id rows).1)).0 ≡ in_progress)
  unfolding decision_of
  one_at_a_time key user_id rows steps fresh all = (
    arrive-decision key user_id rows ∙ ap decision_of fresh,
    arrive-decision key user_id _
        ∙ ap decision_of (
            run-keeps key user_id steps (arrive key user_id rows).1 none all
              (reserved key user_id rows fresh)),
  )

  recorded :
      (key : String) (user_id : ℕ) (cached : Cached D) (rows : List (KeyRow D))
      → find_key key user_id (record_idempotency key user_id cached rows) ≡ some (some cached)
  unfolding record_idempotency
  recorded key user_id cached rows = elim (Option-cases (find_key key user_id rows)) [
    | inl fresh ↦
        rw fresh (find_key-snoc key user_id _ rows fresh (is_for_self key user_id (some cached)))
    | inr (o, taken) ↦ rw taken (find_key-recorded key user_id cached rows o taken)
  ]

  is_waiting : Option (Option (Cached D)) → Bool
  is_waiting (some none) = true
  is_waiting _ = false

  release-frees :
      (key : String) (user_id : ℕ) (rows : List (KeyRow D))
      → is_waiting (find_key key user_id (release_idempotency key user_id rows)) ≡ false
  unfolding find_key release_idempotency keep_if is_waiting
  release-frees key user_id [] = refl
  release-frees key user_id (x ∷ rows) = elim (Bool-cases (is_for key user_id x)) [
    | inl found ↦ elim (Option-cases x.response) [
      | inl empty ↦
          let drop : not (is_for key user_id x && not (is_some x.response)) ≡ false =
            rw (found, empty) refl in
          rw drop (release-frees key user_id rows)
      | inr (cached, stored) ↦
          let keep : not (is_for key user_id x && not (is_some x.response)) ≡ true =
            rw (found, stored) refl in
          rw (keep, found, stored) refl
    ]
    | inr other ↦ rw (other, other) (release-frees key user_id rows)
  ]

  abbrev pub waits : Decision D → Bool
  waits in_progress = true
  waits _ = false

  waits-decision_of : (o : Option (Option (Cached D))) → waits (decision_of o) ≡ is_waiting o
  unfolding decision_of is_waiting replayed
  waits-decision_of none = refl
  waits-decision_of (some none) = refl
  waits-decision_of (some (some (redirect_to location))) = refl
  waits-decision_of (some (some (envelope payload status message))) = refl

  store-frees :
      (c : Option (Cached D)) (saves frees : Bool) (key : String) (user_id : ℕ)
      (rows : List (KeyRow D))
      → find_key key user_id rows ≡ some none
      → is_waiting (find_key key user_id (store c saves frees key user_id rows))
        ≡ not ((is_some c && saves) || frees)
  unfolding store release_if is_waiting
  store-frees none saves true key user_id rows held = release-frees key user_id rows
  store-frees none saves false key user_id rows held = rw held refl
  store-frees (some cached) true frees key user_id rows held =
      rw (recorded key user_id cached rows) refl
  store-frees (some cached) false true key user_id rows held = release-frees key user_id rows
  store-frees (some cached) false false key user_id rows held = rw held refl

  -- When the view of a request that holds its key has ended, in whatever way, the next request with the
  -- key is told to wait exactly if neither a response was stored nor the release went through: a key
  -- is stuck only where the database failed.
  pub waits-settle :
      (result : ViewResult D) (saves frees : Bool) (key : String) (user_id : ℕ)
      (rows : List (KeyRow D))
      → find_key key user_id rows ≡ some none
      → waits (arrive key user_id (settle result saves frees key user_id rows)).0
        ≡ not ((is_some (cacheable result) && saves) || frees)
  unfolding settle
  waits-settle result saves frees key user_id rows held =
      ap waits (arrive-decision key user_id _)
      ∙ waits-decision_of _
      ∙ store-frees (cacheable result) saves frees key user_id rows held
