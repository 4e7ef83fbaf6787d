-- ===== src/Reports.antt =====
-- The reports workflow: app/services/report_service.py, from an employee to the reporting manager.
-- The titles and the other texts of a payload are as stripped; an empty one is `none`.
pub mod Ownership
mod Examples
use inventory_logix_dashboar.Base.Text.{strip, lower, or_text as value_or}
use inventory_logix_dashboar.Base.{
  ℕ, suc, ◌+◌, String, Bool, true, false, not, ◌&&◌, ◌||◌, Option, none, some, List, [], ◌∷◌, ◌++◌,
  ltb, ◌==◌, str_eq, if◌then◌else◌, any_of, keep_if, take, length, update_where,
}

-- `REPORT_STATUSES`
abbrev pub report_statuses : List String
report_statuses =
    "draft" ∷ "submitted" ∷ "under_review" ∷ "approved" ∷ "rejected" ∷ "completed" ∷ []

-- `PRIORITIES`
abbrev pub priorities : List String
priorities = "low" ∷ "medium" ∷ "high" ∷ "critical" ∷ []

-- `REPORT_TYPES`
abbrev pub report_types : List String
report_types = "general" ∷ "procurement" ∷ "warehouse" ∷ "analytics" ∷ "forecast" ∷ "incident" ∷ []

-- `s in texts`
unfoldable pub is_one_of : List String → String → Bool
is_one_of texts s = any_of (str_eq s) texts

-- A row of `reports`
pub record Report : Type 0 where
  pub id : ℕ
  pub title : String
  pub report_type : String
  pub description : Option String
  pub priority : String
  pub related_module : Option String
  pub due_date : Option String
  pub status : String
  pub submitted_by : ℕ
  pub reporting_manager_id : ℕ
  pub reviewed_at : Option ℕ
  pub review_comment : Option String

-- The fields of a user that the checks read.
pub record User : Type 0 where
  pub id : ℕ
  pub role : String

-- The payload of a submission. The title, the description and the module are as stripped, or `none` if
-- nothing is left; `title_length` is the number of characters of the title.
pub record Payload : Type 0 where
  pub title : Option String
  pub title_length : ℕ
  pub report_type : Option String
  pub priority : Option String
  pub description : Option String
  pub related_module : Option String
  pub due_date : Option String
  pub status : Option String

-- The `ReportError`s
pub data ReportError : Type 0 where
  title_required title_too_long invalid_type invalid_priority invalid_initial_status : ReportError
  no_manager invalid_status report_not_found not_the_manager : ReportError

-- The table, and the next number of its sequence.
pub record Reports : Type 0 where
  pub next_id : ℕ
  pub rows : List Report

pub data Result : Type 0 where
  refused : ReportError → Result
  written : ℕ → Reports → Result

-- `(payload.get(...) or default).strip().lower()`
unfoldable pub or_text : Option String → String → String
or_text none default = default
or_text (some s) default = lower (strip (value_or s default))

-- `_insert`
unfoldable pub insert_report : String → Payload → ℕ → ℕ → Reports → Result
insert_report title payload user_id manager_id reports =
    let report : Report = record {
      id = reports.next_id;
      title = title;
      report_type = or_text payload.report_type "general";
      description = payload.description;
      priority = or_text payload.priority "medium";
      related_module = payload.related_module;
      due_date = payload.due_date;
      status = or_text payload.status "submitted";
      submitted_by = user_id;
      reporting_manager_id = manager_id;
      reviewed_at = none;
      review_comment = none;
    } in
    written reports.next_id
      (record { next_id = suc reports.next_id; rows = reports.rows ++ report ∷ [] })

unfoldable pub submit_to : Option ℕ → String → Payload → ℕ → Reports → Result
submit_to none title payload user_id reports = refused no_manager
submit_to (some manager_id) title payload user_id reports =
    insert_report title payload user_id manager_id reports

unfoldable pub submit_titled : Option String → Payload → Option ℕ → ℕ → Reports → Result
submit_titled none payload manager user_id reports = refused title_required
submit_titled (some title) payload manager user_id reports =
    if ltb 200 payload.title_length
    then refused title_too_long
    else if not (is_one_of report_types (or_text payload.report_type "general"))
    then refused invalid_type
    else if not (is_one_of priorities (or_text payload.priority "medium"))
    then refused invalid_priority
    else if not (is_one_of ("draft" ∷ "submitted" ∷ []) (or_text payload.status "submitted"))
    then refused invalid_initial_status
    else submit_to manager title payload user_id reports

-- `submit_report`: `managers` is `UserRepository.get_reporting_manager`. The email is an effect outside.
unfoldable pub submit_report : (ℕ → Option ℕ) → Payload → User → Reports → Result
submit_report managers payload user reports =
    submit_titled payload.title payload (managers user.id) user.id reports

unfoldable pub find_report : ℕ → List Report → Option Report
find_report report_id [] = none
find_report report_id (r ∷ rows) = if r.id == report_id then some r else find_report report_id rows

-- Whether the user is the submitter, the reporting manager or an admin.
unfoldable pub may_view : User → Report → Bool
may_view user r =
    r.submitted_by == user.id || (r.reporting_manager_id == user.id || str_eq user.role "admin")

unfoldable pub may_review : User → Report → Bool
may_review user r = r.reporting_manager_id == user.id || str_eq user.role "admin"

unfoldable pub visible : User → Option Report → Option Report
visible user none = none
visible user (some r) = if may_view user r then some r else none

-- `get_report`
unfoldable pub get_report : ℕ → User → List Report → Option Report
get_report report_id user rows = visible user (find_report report_id rows)

-- `my_submissions`, but for the order
unfoldable pub my_submissions : User → ℕ → List Report → List Report
my_submissions user limit rows = take limit (keep_if (λ r. r.submitted_by == user.id) rows)

unfoldable pub text_matches : Option String → String → Bool
text_matches none s = true
text_matches (some t) s = str_eq s t

unfoldable pub id_matches : Option ℕ → ℕ → Bool
id_matches none n = true
id_matches (some m) n = n == m

-- `list_team_reports`, but for the order
unfoldable pub list_team_reports :
    ℕ → Option String → Option String → Option ℕ → ℕ → List Report → List Report
list_team_reports manager_id status priority submitted_by limit rows = take limit (
    keep_if
      (λ r.
        r.reporting_manager_id == manager_id
        && (text_matches status r.status
            && (text_matches priority r.priority && id_matches submitted_by r.submitted_by)))
      rows)

-- The number of the manager's reports with this status.
unfoldable pub count_status : ℕ → String → List Report → ℕ
count_status manager_id status rows =
    length (keep_if (λ r. r.reporting_manager_id == manager_id && str_eq r.status status) rows)

-- `team_summary`: the number of reports that wait for the manager.
unfoldable pub team_pending : ℕ → List Report → ℕ
team_pending manager_id rows =
    count_status manager_id "submitted" rows + count_status manager_id "under_review" rows

-- `UPDATE reports SET ... WHERE id = ...`
unfoldable pub write_status : ℕ → (Report → Report) → Reports → Result
write_status report_id f reports =
    written report_id
      (record reports { rows = update_where (λ r. r.id == report_id) f reports.rows })

unfoldable pub review_found : Option Report → User → ℕ → (Report → Report) → Reports → Result
review_found none user report_id f reports = refused report_not_found
review_found (some r) user report_id f reports =
    if may_review user r then write_status report_id f reports else refused not_the_manager

-- What the two reviews share.
unfoldable pub review_with : ℕ → String → User → (Report → Report) → Reports → Result
review_with report_id status user f reports =
    if is_one_of report_statuses status
    then review_found (get_report report_id user reports.rows) user report_id f reports
    else refused invalid_status

-- `update_report_status`
unfoldable pub update_report_status : ℕ → String → User → ℕ → Reports → Result
update_report_status report_id status user now =
    review_with report_id status user (λ r. record r { status = status; reviewed_at = some now })

-- `review_report`
unfoldable pub review_report : ℕ → String → User → Option String → ℕ → Reports → Result
review_report report_id status user comment now =
    review_with report_id status user
      (λ r. record r { status = status; reviewed_at = some now; review_comment = comment })
