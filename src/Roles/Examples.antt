-- ===== src/Roles/Examples.antt =====
-- Concrete users.
use inventory_logix_dashboar.Base.{some}
use inventory_logix_dashboar.Roles.{User}

abbrev buyer : User
buyer = record { role = some "viewer"; job_role = some "procurement_buyer" }
