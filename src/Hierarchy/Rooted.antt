-- ===== src/Hierarchy/Rooted.antt =====
-- app/services/user_service.py: the guard against cycles, as a theorem about every climb.
use inventory_logix_dashboar.Base.{
  ℕ, zero, suc, ◌≤◌, ◌<◌, ◌≡◌, refl, sym, ◌∙◌, ◌≢◌, ◌⊎◌, inl, inr, true, false, none, some, List,
  [], ◌∷◌, arith, ltb, ◌==◌, ==_iff, Bool-cases, Option-cases, any_of, update_where,
}
use inventory_logix_dashboar.Hierarchy.{
  Account, find_by_id, manager_of, in_chain, max_depth, manager_chain, write_manager, assign_found,
  set_reporting_manager,
}
use inventory_logix_dashboar.Hierarchy.Chain.{climb, Leads, walk_covers}

-- The climb from the user ends above some manager.
abbrev pub IsRooted : ℕ → List Account → Type 0
IsRooted user users = (n : ℕ) × (climb n user users ≡ none)

started : (x : ℕ) (users : List Account) → climb 0 x users ≡ none → some x ≡ none
unfolding climb
started x users h = h

climb_top :
    (n x : ℕ) (users : List Account) → manager_of x users ≡ none → climb (suc n) x users ≡ none
unfolding climb
climb_top n x users top = ground arith

climb_up :
    (n x above : ℕ) (users : List Account)
    → manager_of x users ≡ some above
    → climb (suc n) x users ≡ climb n above users
unfolding climb
climb_up n x above users up = ground arith

module _ (u m : ℕ) where
  manager_of-write_ne :
      (x : ℕ) (users : List Account)
      → x ≢ u
      → manager_of x (write_manager u m users) ≡ manager_of x users
  unfolding manager_of write_manager update_where
  manager_of-write_ne x [] ne = refl
  manager_of-write_ne x (a ∷ users) ne = ground (arith, manager_of-write_ne x users ne)

  manager_of-write_self :
      (users : List Account)
      → (manager_of u (write_manager u m users) ≡ some m)
        ⊎ (manager_of u (write_manager u m users) ≡ none)
  unfolding manager_of write_manager update_where
  manager_of-write_self [] = inr refl
  manager_of-write_self (a ∷ users) = elim (Bool-cases (a.id == u)) [
    | inl here ↦ inl (ground (arith))
    | inr there ↦ elim (manager_of-write_self users) [
      | inl found ↦ inl (ground (arith))
      | inr lost ↦ inr (ground (arith))
    ]
  ]

  -- A climb that never meets the user is not changed.
  climb-write :
      (n x : ℕ) (users : List Account)
      → ((k : ℕ) → k < n → climb k x users ≢ some u)
      → climb n x (write_manager u m users) ≡ climb n x users
  unfolding climb
  climb-write zero x users away = refl
  climb-write (suc n) x users away =
      let same : manager_of x (write_manager u m users) ≡ manager_of x users =
        manager_of-write_ne x users (λ e. away 0 (omega arith) (rw e)) in
      elim (Option-cases (manager_of x users)) [
        | inl top ↦
            climb_top n x (write_manager u m users) (same ∙ top) ∙ sym (climb_top n x users top)
        | inr (above, up) ↦
            climb_up n x above (write_manager u m users) (same ∙ up)
            ∙ climb-write n above users
                (λ k lt e. away (suc k) (omega arith) (climb_up k x above users up ∙ e))
            ∙ sym (climb_up n x above users up)
      ]

  user-IsRooted :
      (users : List Account)
      → IsRooted m (write_manager u m users)
      → IsRooted u (write_manager u m users)
  user-IsRooted users (k, ends) = elim (manager_of-write_self users) [
    | inl up ↦ (suc k, climb_up k u m (write_manager u m users) up ∙ ends)
    | inr top ↦ (1, climb_top 0 u (write_manager u m users) top)
  ]

  -- Below a manager whose climb ends, every climb that ended before still ends.
  write-IsRooted :
      (n x : ℕ) (users : List Account)
      → climb n x users ≡ none
      → IsRooted m (write_manager u m users)
      → IsRooted x (write_manager u m users)
  write-IsRooted zero x users ends rooted = cc (started x users ends)
  write-IsRooted (suc n) x users ends rooted = elim (Bool-cases (x == u)) [
    | inl here ↦ let same : x ≡ u = (==_iff x u).0 here in rw same (user-IsRooted users rooted)
    | inr other ↦
        let kept : manager_of x (write_manager u m users) ≡ manager_of x users =
          manager_of-write_ne x users (λ e. cc ((==_iff x u).1 e, other)) in
        elim (Option-cases (manager_of x users)) [
          | inl top ↦ (1, climb_top 0 x (write_manager u m users) (kept ∙ top))
          | inr (above, up) ↦
              let (k, e) =
                write-IsRooted n above users (sym (climb_up n x above users up) ∙ ends) rooted in
              (suc k, climb_up k x above (write_manager u m users) (kept ∙ up) ∙ e)
        ]
  ]

climb_ended :
    (n k x : ℕ) (users : List Account) → climb n x users ≡ none → n ≤ k → climb k x users ≡ none
climb_ended zero k x users ends le = cc (started x users ends)
climb_ended (suc n) zero x users ends le = absurd (omega arith)
climb_ended (suc n) (suc k) x users ends le = elim (Option-cases (manager_of x users)) [
  | inl top ↦ climb_top k x users top
  | inr (above, up) ↦
      climb_up k x above users up
      ∙ climb_ended n k above users (sym (climb_up n x above users up) ∙ ends) (omega arith)
]

-- What a climb meets lies in `manager_chain`, if the climb ends within its depth.
climb-manager_chain :
    (n m u : ℕ) (users : List Account)
    → climb (suc max_depth) m users ≡ none
    → climb (suc n) m users ≡ some u
    → in_chain u (manager_chain m users) ≡ true
unfolding manager_chain in_chain any_of
climb-manager_chain n m u users ends e = elim (Bool-cases (ltb n max_depth)) [
  | inl near ↦ walk_covers users max_depth n m u [] empty_trail (ground (arith)) e
  | inr far ↦ cc (climb_ended (suc max_depth) (suc n) m users ends (ground (arith)), e)
]
  where
    empty_trail : (x : ℕ) → in_chain x [] ≡ true → (x ≡ m) ⊎ Leads users x []
    empty_trail x h = cc

-- A climb from the new manager never meets the user, when the walk did not.
outside :
    (m u k : ℕ) (users : List Account)
    → u ≢ m
    → climb (suc max_depth) m users ≡ none
    → in_chain u (manager_chain m users) ≡ false
    → climb k m users ≢ some u
unfolding climb
outside m u zero users ne ends free e = ne (cc)
outside m u (suc k) users ne ends free e = cc (climb-manager_chain k m u users ends e)

-- If every climb up the managers ends, and the one from the new manager within the 50 steps that
-- `manager_chain` looks at, then every climb still ends after `set_reporting_manager`, whatever it
-- answers: no cycle comes in.
pub set_reporting_manager-IsRooted :
    (user manager x : ℕ) (users : List Account)
    → IsRooted x users
    → climb (suc max_depth) manager users ≡ none
    → IsRooted x (set_reporting_manager user (some manager) users).1
unfolding set_reporting_manager assign_found
set_reporting_manager-IsRooted user manager x users rooted ends =
    elim (Bool-cases (user == manager)) [
      | inl same ↦ rw same rooted
      | inr other ↦ elim (Option-cases (find_by_id manager users)) [
        | inl missing ↦ rw (other, missing) rooted
        | inr (row, found) ↦ elim (Bool-cases row.is_active) [
          | inr inactive ↦ rw (other, found, inactive) rooted
          | inl active ↦ elim (Bool-cases (in_chain user (manager_chain manager users))) [
            | inl circle ↦ rw (other, found, active, circle) rooted
            | inr free ↦
                rw (other, found, active, free)
                  (write-IsRooted user manager rooted.0 x users rooted.1 (
                    suc max_depth,
                    climb-write user manager (suc max_depth) manager users (λ k lt.
                          outside manager user k users (λ e. cc ((==_iff user manager).1 e, other))
                            ends free)
                        ∙ ends,
                  ))
          ]
        ]
      ]
    ]
