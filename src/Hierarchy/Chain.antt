-- ===== src/Hierarchy/Chain.antt =====
-- app/repositories/user_repo.py, `manager_chain`: what the bounded walk collects.
use inventory_logix_dashboar.Base.{
  ℕ, zero, suc, ◌≤◌, ◌≡◌, ◌⊎◌, inl, inr, true, Option, none, some, List, [], ◌∷◌, ◌++◌, arith,
  ==_iff, Bool-cases, Option-cases, any_of,
}
use inventory_logix_dashboar.Hierarchy.{Account, manager_of, in_chain, walk}

-- The manager so many steps up, if the chain is that long.
unfoldable pub climb : ℕ → ℕ → List Account → Option ℕ
climb zero user users = some user
climb (suc n) user users = elim (manager_of user users) [
  | none ↦ none
  | some above ↦ climb n above users
]

in_chain-append :
    (x y : ℕ) (chain : List ℕ) → in_chain x chain ≡ true → in_chain x (chain ++ y ∷ []) ≡ true
unfolding in_chain any_of
in_chain-append x y [] h = cc
in_chain-append x y (c ∷ chain) h = ground (arith, in_chain-append x y chain)

in_chain-append_last : (x : ℕ) (chain : List ℕ) → in_chain x (chain ++ x ∷ []) ≡ true
unfolding in_chain any_of
in_chain-append_last x [] = ground arith
in_chain-append_last x (c ∷ chain) = ground (arith, in_chain-append_last x chain)

in_chain-append_cases :
    (x y : ℕ) (chain : List ℕ)
    → in_chain x (chain ++ y ∷ []) ≡ true
    → (x ≡ y) ⊎ (in_chain x chain ≡ true)
unfolding in_chain any_of
in_chain-append_cases x y [] h = ground (arith, ==_iff y x)
in_chain-append_cases x y (c ∷ chain) h = ground (arith, in_chain-append_cases x y chain)

module _ (users : List Account) where
  -- The next manager is in the chain.
  abbrev pub Leads : ℕ → List ℕ → Type 0
  Leads x chain = (above : ℕ) × (manager_of x users ≡ some above) × (in_chain above chain ≡ true)

  -- What the chain holds is led on inside it, except where the walk stands.
  abbrev pub IsTrail : ℕ → List ℕ → Type 0
  IsTrail current chain = (x : ℕ) → in_chain x chain ≡ true → (x ≡ current) ⊎ Leads x chain

  walk_keeps :
      (rounds x current : ℕ) (chain : List ℕ)
      → in_chain x chain ≡ true
      → in_chain x (walk rounds current chain users) ≡ true
  unfolding walk
  walk_keeps zero x current chain h = h
  walk_keeps (suc rounds) x current chain h = elim (Option-cases (manager_of current users)) [
    | inl top ↦ rw (top, walk) h
    | inr (above, up) ↦ elim (Bool-cases (in_chain above chain)) [
      | inl met ↦ rw (up, walk, met, walk) h
      | inr fresh ↦
          rw (up, walk, fresh, walk)
            (walk_keeps rounds x above (chain ++ above ∷ []) (in_chain-append x above chain h))
    ]
  ]

  -- A chain that is led on everywhere holds all that a climb from it meets.
  climb_inside :
      (n x y : ℕ) (chain : List ℕ)
      → ((z : ℕ) → in_chain z chain ≡ true → Leads z chain)
      → in_chain x chain ≡ true
      → climb n x users ≡ some y
      → in_chain y chain ≡ true
  unfolding climb
  climb_inside zero x y chain closed h e = let same : x ≡ y = cc in rw (← same) h
  climb_inside (suc n) x y chain closed h e =
      let (above, up, met) = closed x h in
      climb_inside n above y chain closed met (rw (up, climb) at e)

  IsTrail-closed :
      (current above : ℕ) (chain : List ℕ)
      → IsTrail current chain
      → manager_of current users ≡ some above
      → in_chain above chain ≡ true
      → (z : ℕ) → in_chain z chain ≡ true
      → Leads z chain
  IsTrail-closed current above chain trail up met z h = elim (trail z h) [
    | inl here ↦ (above, rw here up, met)
    | inr on ↦ on
  ]

  IsTrail-append :
      (current above : ℕ) (chain : List ℕ)
      → IsTrail current chain
      → manager_of current users ≡ some above
      → IsTrail above (chain ++ above ∷ [])
  IsTrail-append current above chain trail up x h = elim (in_chain-append_cases x above chain h) [
    | inl last ↦ inl last
    | inr old ↦ elim (trail x old) [
      | inl here ↦ inr (above, rw here up, in_chain-append_last above chain)
      | inr (y, next, met) ↦ inr (y, next, in_chain-append y above chain met)
    ]
  ]

  one_up : (current y : ℕ) → climb 1 current users ≡ some y → manager_of current users ≡ some y
  unfolding climb
  one_up current y e = ground arith

  -- The walk meets every manager that so many rounds can reach, also where it stops early.
  pub walk_covers :
      (rounds n current y : ℕ) (chain : List ℕ)
      → IsTrail current chain
      → suc n ≤ rounds
      → climb (suc n) current users ≡ some y
      → in_chain y (walk rounds current chain users) ≡ true
  unfolding walk in_chain climb
  walk_covers zero n current y chain trail le e = absurd (omega arith)
  walk_covers (suc rounds) zero current y chain trail le e =
      let up : manager_of current users ≡ some y = one_up current y e in
      elim (Bool-cases (in_chain y chain)) [
        | inl met ↦ rw (up, walk, met, walk) met
        | inr fresh ↦
            rw (up, walk, fresh, walk)
              (walk_keeps rounds y y (chain ++ y ∷ []) (in_chain-append_last y chain))
      ]
  walk_covers (suc rounds) (suc n) current y chain trail le e =
      elim (Option-cases (manager_of current users)) [
        | inl top ↦ cc (rw (top, climb) at e)
        | inr (above, up) ↦ elim (Bool-cases (in_chain above chain)) [
          | inl met ↦
              rw (up, walk, met, walk)
                (climb_inside (suc n) above y chain
                  (IsTrail-closed current above chain trail up met) met (rw (up, climb) at e))
          | inr fresh ↦
              rw (up, walk, fresh, walk)
                (walk_covers rounds n above y (chain ++ above ∷ [])
                  (IsTrail-append current above chain trail up) (omega arith) (rw (up, climb) at e))
        ]
      ]
