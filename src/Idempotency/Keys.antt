-- ===== src/Idempotency/Keys.antt =====
-- How the writes of `idempotency_keys` change what is found for a key.
use inventory_logix_dashboar.Base.{
  ℕ, String, ◌≡◌, refl, true, false, not, ◌&&◌, Option, none, some, List, [], ◌∷◌, ◌++◌, arith,
  ◌==◌, str_eq, eq_iff, keep_if, update_where, is_some, Bool-cases, inl, inr,
}
use inventory_logix_dashboar.Idempotency.{Cached, KeyRow, is_for, find_key, release_idempotency}

module _ {ℓ} {D : Type ℓ} where
  pub find_key-append :
      (key : String) (user_id : ℕ) (row : KeyRow D) (rows : List (KeyRow D)) (o : Option (Cached D))
      → find_key key user_id rows ≡ some o
      → find_key key user_id (rows ++ row ∷ []) ≡ some o
  unfolding find_key
  find_key-append key user_id row [] o h = cc
  find_key-append key user_id row (x ∷ rows) o h = elim (Bool-cases (is_for key user_id x)) [
    | inl found ↦ rw found (rw found at h)
    | inr other ↦ rw other (find_key-append key user_id row rows o (rw other at h))
  ]

  pub find_key-snoc :
      (key : String) (user_id : ℕ) (row : KeyRow D) (rows : List (KeyRow D))
      → find_key key user_id rows ≡ none
      → is_for key user_id row ≡ true
      → find_key key user_id (rows ++ row ∷ []) ≡ some row.response
  unfolding find_key
  find_key-snoc key user_id row [] h e = rw e refl
  find_key-snoc key user_id row (x ∷ rows) h e = elim (Bool-cases (is_for key user_id x)) [
    | inl found ↦ cc (rw found at h)
    | inr other ↦ rw other (find_key-snoc key user_id row rows (rw other at h) e)
  ]

  -- The two keys differ, so no row is for both.
  not_both :
      (key k : String) (user_id u : ℕ) (row : KeyRow D)
      → (str_eq k key && u == user_id) ≡ false
      → is_for key user_id row ≡ true
      → is_for k u row ≡ false
  unfolding is_for
  not_both key k user_id u row h e =
      ground (arith, eq_iff row.key key, eq_iff row.key k, eq_iff k key)

  pub find_key-update_where :
      (key k : String) (user_id u : ℕ) (cached : Cached D) (rows : List (KeyRow D))
      (o : Option (Cached D))
      → (str_eq k key && u == user_id) ≡ false
      → find_key key user_id rows ≡ some o
      → find_key key user_id
          (update_where (is_for k u) (λ row. record row { response = some cached }) rows)
        ≡ some o
  unfolding find_key update_where is_for
  find_key-update_where key k user_id u cached [] o apart h = cc
  find_key-update_where key k user_id u cached (x ∷ rows) o apart h =
      elim (Bool-cases (is_for key user_id x)) [
        | inl found ↦
            let missed = not_both key k user_id u x apart found in
            rw (missed, found) (rw found at h)
        | inr other ↦
            let rest = find_key-update_where key k user_id u cached rows o apart (rw other at h) in
            elim (Bool-cases (is_for k u x)) [
              | inl hit ↦
                  let same : is_for key user_id (record x { response = some cached }) ≡ false =
                    other in
                  rw (hit, same) rest
              | inr missed ↦ rw (missed, other) rest
            ]
      ]

  pub find_key-release :
      (key k : String) (user_id u : ℕ) (rows : List (KeyRow D)) (o : Option (Cached D))
      → (str_eq k key && u == user_id) ≡ false
      → find_key key user_id rows ≡ some o
      → find_key key user_id (release_idempotency k u rows) ≡ some o
  unfolding find_key release_idempotency keep_if
  find_key-release key k user_id u [] o apart h = cc
  find_key-release key k user_id u (x ∷ rows) o apart h = elim (Bool-cases (is_for key user_id x)) [
    | inl found ↦
        let missed = not_both key k user_id u x apart found in rw (missed, found) (rw found at h)
    | inr other ↦
        let rest = find_key-release key k user_id u rows o apart (rw other at h) in
        elim (Bool-cases (not (is_for k u x && not (is_some x.response)))) [
          | inl kept ↦ rw (kept, other) rest
          | inr dropped ↦ rw dropped rest
        ]
  ]

  pub find_key-recorded :
      (key : String) (user_id : ℕ) (cached : Cached D) (rows : List (KeyRow D))
      (o : Option (Cached D))
      → find_key key user_id rows ≡ some o
      → find_key key user_id
          (update_where (is_for key user_id) (λ row. record row { response = some cached }) rows)
        ≡ some (some cached)
  unfolding find_key update_where is_for
  find_key-recorded key user_id cached [] o h = cc
  find_key-recorded key user_id cached (x ∷ rows) o h = elim (Bool-cases (is_for key user_id x)) [
    | inl found ↦
        let same : is_for key user_id (record x { response = some cached }) ≡ true = found in
        rw (found, same) refl
    | inr other ↦ rw (other, other) (find_key-recorded key user_id cached rows o (rw other at h))
  ]
