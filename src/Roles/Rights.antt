-- ===== src/Roles/Rights.antt =====
-- What the tables of app/security/roles.py let a user do.
use inventory_logix_dashboar.Base.{
  String, ◌≡◌, refl, true, ◌||◌, Option, none, some, List, [], ◌∷◌, str_eq, any_of, All, Bool-cases,
  inl, inr,
}
use inventory_logix_dashboar.Base.Dict.{OrderedDict, lookup}
use inventory_logix_dashboar.Roles.{
  contains, job_roles, legacy_job_role, role_permissions, User, or_default, legacy_role,
  job_role_or, user_job_role,
}

lookup-default :
    (P : String → Type 0) (k default : String) (d : OrderedDict String)
    → P default
    → All (λ (e : String × String). P e.1) d
    → P (or_default (lookup k d) default)
unfolding lookup or_default
lookup-default P k default [] h all = h
lookup-default P k default ((j, v) ∷ d) h all = elim (Bool-cases (str_eq j k)) [
  | inl same ↦ rw same all.0
  | inr other ↦ rw other (lookup-default P k default d h all.1)
]

legacy_known : (role : Option String) → contains (legacy_role role) job_roles ≡ true
unfolding contains any_of legacy_role
legacy_known none = refl
legacy_known (some role) =
    lookup-default (λ s. contains s job_roles ≡ true) role "inventory_analyst" legacy_job_role refl
      (refl, (refl, (refl, tt)))

known_or : (job_role role : Option String) → contains (job_role_or job_role role) job_roles ≡ true
unfolding job_role_or
known_or none role = legacy_known role
known_or (some job_role) role = elim (Bool-cases (contains job_role job_roles)) [
  | inl known ↦ rw (known, known) refl
  | inr other ↦ rw other (legacy_known role)
]

-- Every user has one of the ten job roles, whatever the two columns hold.
pub user_job_role_known : (user : Option User) → contains (user_job_role user) job_roles ≡ true
unfolding user_job_role
user_job_role_known none = legacy_known none
user_job_role_known (some user) = known_or user.job_role user.role

-- The permissions of a job role.
abbrev rights : String → List String
rights role = or_default (lookup role role_permissions) []

-- The permission is that of the directors, and of the roles in the list.
abbrev pub IsFor : String → List String → String → Type 0
IsFor permission roles role =
    (contains "*" (rights role) || contains permission (rights role))
    ≡ (str_eq role "inventory_director" || contains role roles)
