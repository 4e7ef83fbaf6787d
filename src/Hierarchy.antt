-- ===== src/Hierarchy.antt =====
-- app/services/user_service.py and the reporting lines of app/repositories/user_repo.py: who reports
-- to whom, the walk up the chain of managers, and the guarded change of a user's manager.
pub mod Chain
pub mod Rooted
mod Examples
use inventory_logix_dashboar.Base.{
  ℕ, zero, suc, Bool, true, false, not, ◌&&◌, Option, none, some, List, [], ◌∷◌, ◌++◌, ◌==◌,
  if◌then◌else◌, any_of, update_where,
}

-- The columns of `users` that the hierarchy reads; `is_deleted` says that `deleted_at` is set.
pub record Account : Type 0 where
  pub id : ℕ
  pub is_active : Bool
  pub is_deleted : Bool
  pub reporting_manager_id : Option ℕ

-- `UserRepository.find_by_id`, whose procedure leaves out the deleted rows.
unfoldable pub find_by_id : ℕ → List Account → Option Account
find_by_id user_id [] = none
find_by_id user_id (a ∷ users) =
    if (a.id == user_id) && not a.is_deleted then some a else find_by_id user_id users

-- `SELECT reporting_manager_id FROM users WHERE id = current`: no row and no manager look the same.
unfoldable pub manager_of : ℕ → List Account → Option ℕ
manager_of current [] = none
manager_of current (a ∷ users) =
    if a.id == current then a.reporting_manager_id else manager_of current users

-- `n in chain`
unfoldable pub in_chain : ℕ → List ℕ → Bool
in_chain n chain = any_of (λ m. m == n) chain

-- The loop of `manager_chain`, with the rounds that are left.
unfoldable pub walk : ℕ → ℕ → List ℕ → List Account → List ℕ
walk zero current chain users = chain
walk (suc rounds) current chain users = elim (manager_of current users) [
  | none ↦ chain
  | some above ↦ elim (in_chain above chain) [
    | true ↦ chain
    | false ↦ walk rounds above (chain ++ above ∷ []) users
  ]
]

-- the default of `max_depth`
abbrev pub max_depth : ℕ
max_depth = 50

unfoldable pub manager_chain : ℕ → List Account → List ℕ
manager_chain user_id users = walk max_depth user_id [] users

-- `UPDATE users SET reporting_manager_id = ... WHERE id = ...`
unfoldable pub write_manager : ℕ → ℕ → List Account → List Account
write_manager user_id manager_id users =
    update_where (λ a. a.id == user_id) (λ a. record a { reporting_manager_id = some manager_id })
      users

-- The messages of the `ValueError`s.
pub data Refusal : Type 0 where
  reports_to_self manager_not_found manager_inactive circular_hierarchy : Refusal

-- The checks on the manager's row, and the write.
unfoldable pub assign_found : ℕ → ℕ → Option Account → List Account → Option Refusal × List Account
assign_found user_id manager_id none users = (some manager_not_found, users)
assign_found user_id manager_id (some manager) users =
    if not manager.is_active
    then (some manager_inactive, users)
    else if in_chain user_id (manager_chain manager_id users)
    then (some circular_hierarchy, users)
    else (none, write_manager user_id manager_id users)

-- `UserService.set_reporting_manager`: the refusal, if any, and the table. The edit form passes no
-- manager for an empty field, and `id = NULL` finds no row.
unfoldable pub set_reporting_manager : ℕ → Option ℕ → List Account → Option Refusal × List Account
unfolding assign_found
set_reporting_manager user_id none users = (some manager_not_found, users)
set_reporting_manager user_id (some manager_id) users =
    if user_id == manager_id
    then (some reports_to_self, users)
    else assign_found user_id manager_id (find_by_id manager_id users) users
