-- ===== src/SystemConfig/Examples.antt =====
-- Instances of the theorems: the one allowed override is set, deleted and set again, and a key that is
-- not allowed is refused.
use inventory_logix_dashboar.Base.{
  String, true, false, ◌≡◌, refl, none, some, List, [], ◌∷◌, All, any_of, update_where,
}
use inventory_logix_dashboar.Base.Dict.{lookup}
use inventory_logix_dashboar.Base.Text.{strip, lower, upper, after_first}
use inventory_logix_dashboar.SystemConfig.{
  Override, is_sensitive_key, get_all, create, edit, delete_override, get_by_key, find_live,
  has_key, is_live,
}
use inventory_logix_dashboar.SystemConfig.History.{
  Action, creates, edits, deletes, perform, perform_all, effective, intended_all,
  effective-perform_all,
}
use inventory_logix_dashboar.SystemConfig.Proper.{AllProper, IsListed, get_all-perform_all}

abbrev etl_key : String
etl_key = "RUN_ETL_ON_STARTUP"

abbrev requests : List Action
requests =
    creates etl_key " Off " "no start-up run" 1
    ∷ creates "SMTP_PASSWORD" "true" "" 1
    ∷ deletes etl_key 1 20
    ∷ edits etl_key "yes" "" 2
    ∷ creates etl_key "maybe" "" 2
    ∷ creates etl_key "on" "" 2
    ∷ []

abbrev stored : List Override
stored =
    record {
      key = "RUN_ETL_ON_STARTUP";
      value = "1";
      description = "";
      is_sensitive = false;
      updated_by = 1;
      deleted_at = some 3;
    }
    ∷ record {
      key = "SMTP_PASSWORD";
      value = "hunter2";
      description = "";
      is_sensitive = true;
      updated_by = 1;
      deleted_at = none;
    }
    ∷ []

stored-AllProper : AllProper stored
unfolding is_sensitive_key any_of lower after_first upper
stored-AllProper = (((λ _. refl), refl), (((λ h. cc), refl), tt))

password_is_sensitive : is_sensitive_key "smtp_password" ≡ true
unfolding is_sensitive_key any_of after_first upper
password_is_sensitive = refl

revived : effective etl_key (perform_all requests stored) ≡ some "on"
unfolding perform_all perform create edit delete_override get_by_key find_live has_key is_live
    lookup any_of strip lower update_where
revived = refl

effective-perform_all_example :
    effective etl_key (perform_all requests stored)
    ≡ intended_all requests (λ j. effective j stored) etl_key
effective-perform_all_example = effective-perform_all requests stored etl_key

get_all-perform_all_example : All IsListed (get_all (λ a b. true) (perform_all requests stored))
get_all-perform_all_example = get_all-perform_all (λ a b. true) requests stored stored-AllProper
