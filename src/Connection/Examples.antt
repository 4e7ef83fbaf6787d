-- ===== src/Connection/Examples.antt =====
-- An instance of the theorem: the connection is stale at the first call.
use inventory_logix_dashboar.Base.{ℕ, true, false, some, List, [], ◌∷◌}
use inventory_logix_dashboar.Connection.{
  operational_error, set_user, Step, execute, Request, with_cursor,
}
use inventory_logix_dashboar.Connection.Calls.{statements}
use inventory_logix_dashboar.Connection.Atomic.{IsAtomic, with_cursor-IsAtomic}

abbrev steps : List (Step ℕ)
steps = execute 10 ∷ execute 11 ∷ []

abbrev request : Request ℕ
request = record {
  committed = [];
  pending = [];
  conn = some 1;
  next_conn = 2;
  alert_rows = 0;
  alert_unresolved = false;
  faults = some operational_error ∷ [];
}

with_cursor-IsAtomic_example :
    IsAtomic true
      (set_user (some 7) ∷ statements steps)
      request
      (with_cursor (some 7) true steps request)
with_cursor-IsAtomic_example = with_cursor-IsAtomic (some 7) true steps request
