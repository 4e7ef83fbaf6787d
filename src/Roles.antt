-- ===== src/Roles.antt =====
-- app/security/roles.py: the permissions of the job roles, and the checks of a request's user.
pub mod Rights
mod Examples
use inventory_logix_dashboar.Base.{
  String, Bool, true, false, not, ◌&&◌, ◌||◌, Option, none, some, List, [], ◌∷◌, str_eq,
  if◌then◌else◌, any_of, is_some,
}
use inventory_logix_dashboar.Base.Dict.{OrderedDict, lookup}

-- `p in perms`
unfoldable pub contains : String → List String → Bool
contains p perms = any_of (str_eq p) perms

-- `WRITE_ROLES`
abbrev pub write_roles : List String
write_roles = "admin" ∷ "manager" ∷ []

-- `JOB_ROLES`
abbrev pub job_roles : List String
job_roles =
    "inventory_director" ∷ "vp_operations" ∷ "procurement_manager" ∷ "procurement_buyer"
    ∷ "procurement_coordinator" ∷ "supplier_coordinator" ∷ "warehouse_manager"
    ∷ "receiving_associate" ∷ "inventory_analyst" ∷ "demand_planning_analyst" ∷ []

-- `LEGACY_JOB_ROLE`
abbrev pub legacy_job_role : OrderedDict String
legacy_job_role =
    ("admin", "inventory_director")
    ∷ ("manager", "procurement_manager")
    ∷ ("viewer", "inventory_analyst")
    ∷ []

-- `ROLE_PERMISSIONS`
abbrev pub role_permissions : OrderedDict (List String)
role_permissions =
    ("inventory_director", "*" ∷ [])
    ∷ (
      "vp_operations",
      "inventory.view.all" ∷ "dashboard.view" ∷ "analytics.view" ∷ "supplier.view"
          ∷ "reports.view.all" ∷ "reports.review" ∷ "procurement.view" ∷ "warehouse.view" ∷ [],
    )
    ∷ (
      "procurement_manager",
      "procurement.view" ∷ "po.view" ∷ "po.create" ∷ "po.approve" ∷ "supplier.view"
          ∷ "supplier.manage" ∷ "reports.review" ∷ "report.submit" ∷ "dashboard.view" ∷ [],
    )
    ∷ (
      "procurement_buyer",
      "po.view" ∷ "po.create" ∷ "supplier.view" ∷ "report.submit" ∷ "dashboard.view" ∷ [],
    )
    ∷ ("procurement_coordinator", "po.view" ∷ "po.create" ∷ "report.submit" ∷ "dashboard.view" ∷ [])
    ∷ (
      "supplier_coordinator",
      "supplier.view" ∷ "supplier.manage" ∷ "report.submit" ∷ "dashboard.view" ∷ [],
    )
    ∷ (
      "warehouse_manager",
      "warehouse.view" ∷ "stock.receive" ∷ "stock.adjust" ∷ "reports.review" ∷ "report.submit"
          ∷ "dashboard.view" ∷ [],
    )
    ∷ (
      "receiving_associate",
      "stock.receive" ∷ "warehouse.view" ∷ "report.submit" ∷ "dashboard.view" ∷ [],
    )
    ∷ ("inventory_analyst", "analytics.view" ∷ "report.submit" ∷ "dashboard.view" ∷ [])
    ∷ ("demand_planning_analyst", "analytics.view" ∷ "report.submit" ∷ "dashboard.view" ∷ [])
    ∷ []

-- The fields of a user that the checks read.
pub record User : Type 0 where
  pub role : Option String
  pub job_role : Option String

unfoldable pub or_default : {A : Type 0} → Option A → A → A
or_default none a = a
or_default (some b) a = b

unfoldable pub legacy_role : Option String → String
legacy_role none = "inventory_analyst"
legacy_role (some role) = or_default (lookup role legacy_job_role) "inventory_analyst"

unfoldable pub job_role_or : Option String → Option String → String
job_role_or none role = legacy_role role
job_role_or (some job_role) role =
    if contains job_role job_roles then job_role else legacy_role role

-- `user_job_role`
unfoldable pub user_job_role : Option User → String
user_job_role none = legacy_role none
user_job_role (some user) = job_role_or user.job_role user.role

unfoldable pub role_is : Option String → String → Bool
role_is none name = false
role_is (some role) name = str_eq role name

unfoldable pub is_admin : Option User → Bool
is_admin none = false
is_admin (some user) = role_is user.role "admin"

-- `user_permissions`
unfoldable pub user_permissions : Option User → List String
user_permissions user =
    if is_admin user then "*" ∷ [] else or_default (lookup (user_job_role user) role_permissions) []

-- `has_permission`
unfoldable pub has_permission : Option User → String → Bool
has_permission user permission =
    let perms = user_permissions user in contains "*" perms || contains permission perms

-- What a guard of a route does.
pub data Access : Type 0 where
  forbidden run_route : Access

-- `roles_required`
unfoldable pub roles_required : List String → User → Access
roles_required roles user = if any_of (role_is user.role) roles then run_route else forbidden

-- `write_roles_required`
unfoldable pub write_roles_required : User → Access
write_roles_required = roles_required write_roles

-- `permission_required`
unfoldable pub permission_required : String → User → Access
permission_required permission user =
    if has_permission (some user) permission then run_route else forbidden
