-- ===== src/Hierarchy/Examples.antt =====
-- Instances of the theorems on small hierarchies.
use inventory_logix_dashboar.Base.{
  ℕ, ◌≡◌, refl, true, false, Option, none, some, List, [], ◌∷◌, any_of,
}
use inventory_logix_dashboar.Hierarchy.{
  Account, circular_hierarchy, manager_not_found, find_by_id, in_chain, manager_chain, walk,
  manager_of, set_reporting_manager,
}
use inventory_logix_dashboar.Hierarchy.Chain.{climb}
use inventory_logix_dashboar.Hierarchy.Rooted.{IsRooted, set_reporting_manager-IsRooted}

abbrev account : ℕ → Option ℕ → Account
account n manager = record {
  id = n;
  is_active = true;
  is_deleted = false;
  reporting_manager_id = manager;
}

-- 3 reports to 2, who reports to 1; 4 stands alone.
abbrev staff : List Account
staff = account 1 none ∷ account 2 (some 1) ∷ account 3 (some 2) ∷ account 4 none ∷ []

set_reporting_manager-IsRooted_example : IsRooted 4 (set_reporting_manager 4 (some 3) staff).1
unfolding climb manager_of
set_reporting_manager-IsRooted_example = set_reporting_manager-IsRooted 4 3 4 staff (1, top) ends
  where
    top : climb 1 4 staff ≡ none
    top = refl

    ends : climb 51 3 staff ≡ none
    ends = refl

circle_refused : (set_reporting_manager 1 (some 3) staff).0 ≡ some circular_hierarchy
unfolding set_reporting_manager find_by_id in_chain any_of manager_chain walk manager_of
circle_refused = refl

-- An empty field of the edit form does not take the manager away.
clear_refused : set_reporting_manager 3 none staff ≡ (some manager_not_found, staff)
unfolding set_reporting_manager
clear_refused = refl
