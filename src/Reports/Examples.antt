-- ===== src/Reports/Examples.antt =====
-- Concrete reports.
use inventory_logix_dashboar.Base.{
  ℕ, ◌≡◌, refl, Option, none, some, [], ◌∷◌, ◌==◌, if◌then◌else◌, any_of,
}
use inventory_logix_dashboar.Reports.{
  Report, User, Payload, Reports, is_one_of, find_report, get_report, update_report_status,
  review_report,
}
use inventory_logix_dashboar.Reports.Ownership.{
  submits, reviews, reports_after, perform_all, AllProper, review_refused, perform_all-AllProper,
}

abbrev count_stock : Report
count_stock = record {
  id = 1;
  title = "Count";
  report_type = "warehouse";
  description = none;
  priority = "high";
  related_module = none;
  due_date = none;
  status = "submitted";
  submitted_by = 4;
  reporting_manager_id = 9;
  reviewed_at = none;
  review_comment = none;
}

abbrev table : Reports
table = record { next_id = 2; rows = count_stock ∷ [] }

abbrev managers : ℕ → Option ℕ
managers n = if n == 4 then some 9 else none

abbrev submitter : User
submitter = record { id = 4; role = "viewer" }

abbrev manager : User
manager = record { id = 9; role = "manager" }

-- The submitter may not approve the own report.
review_refused_example :
    (reports_after (update_report_status 1 "approved" submitter 50 table) table ≡ table)
    × ((reports_after (review_report 1 "approved" submitter (some "fine") 50 table) table ≡ table)
        × (get_report 1 submitter table.rows ≡ (if 4 == 4 then some count_stock else none)))
unfolding find_report
review_refused_example =
    review_refused 1 "approved" submitter (some "fine") 50 count_stock table refl refl refl

abbrev payload : Payload
payload = record {
  title = some "Weekly";
  title_length = 6;
  report_type = none;
  priority = some "low";
  description = none;
  related_module = none;
  due_date = none;
  status = none;
}

table-AllProper : AllProper managers table
unfolding is_one_of any_of
table-AllProper = (
  record { type_known = refl; priority_known = refl; status_known = refl; manager_assigned = refl },
  tt,
)

perform_all-AllProper_example : AllProper managers (
    perform_all managers
      (submits payload submitter ∷ reviews 1 "approved" manager none 60 ∷ [])
      table)
perform_all-AllProper_example =
    perform_all-AllProper managers
      (submits payload submitter ∷ reviews 1 "approved" manager none 60 ∷ []) table table-AllProper
