-- ===== src/Reports/Ownership.antt =====
-- Who may read and who may write a report.
use inventory_logix_dashboar.Base.{
  ℕ, String, ltb, ◌≡◌, refl, Bool, true, false, not, Option, none, some, List, [], ◌∷◌, arith, ◌==◌,
  str_eq, if◌then◌else◌, any_of, Bool-cases, inl, inr, All, All-update_where, All-append,
}
use inventory_logix_dashboar.Reports.{
  Report, User, Payload, Reports, Result, refused, written, report_statuses, priorities,
  report_types, is_one_of, or_text, insert_report, submit_to, submit_titled, submit_report,
  find_report, may_view, may_review, visible, get_report, write_status, review_found, review_with,
  update_report_status, review_report,
}

-- A request that may write.
pub data Request : Type 0 where
  submits : Payload → User → Request
  updates : ℕ → String → User → ℕ → Request
  reviews : ℕ → String → User → Option String → ℕ → Request

-- The table after a request.
unfoldable pub reports_after : Result → Reports → Reports
reports_after (refused e) reports = reports
reports_after (written n reports') reports = reports'

unfoldable pub perform : (ℕ → Option ℕ) → Request → Reports → Reports
perform managers (submits payload user) reports =
    reports_after (submit_report managers payload user reports) reports
perform managers (updates report_id status user now) reports =
    reports_after (update_report_status report_id status user now reports) reports
perform managers (reviews report_id status user comment now) reports =
    reports_after (review_report report_id status user comment now reports) reports

unfoldable pub perform_all : (ℕ → Option ℕ) → List Request → Reports → Reports
perform_all managers [] reports = reports
perform_all managers (r ∷ requests) reports =
    perform_all managers requests (perform managers r reports)

-- The row has a type, a priority and a status of the lists, and its manager is the submitter's.
pub record IsProper (managers : ℕ → Option ℕ) (r : Report) : Type 0 where
  pub type_known : is_one_of report_types r.report_type ≡ true
  pub priority_known : is_one_of priorities r.priority ≡ true
  pub status_known : is_one_of report_statuses r.status ≡ true
  pub manager_assigned : managers r.submitted_by ≡ some r.reporting_manager_id

abbrev pub AllProper : (ℕ → Option ℕ) → Reports → Type 0
AllProper managers reports = All (IsProper managers) reports.rows

seen_by :
    (user : User) (r : Report)
    → may_review user r ≡ false
    → may_view user r ≡ (r.submitted_by == user.id)
unfolding may_view may_review
seen_by user r h = ground arith

visible_to :
    (user : User) (o : Option Report) (r : Report)
    → o ≡ some r
    → may_review user r ≡ false
    → visible user o ≡ (if r.submitted_by == user.id then some r else none)
unfolding visible
visible_to user o r found outside = rw (found, seen_by user r outside) refl

found_refused :
    (b : Bool) (user : User) (report_id : ℕ) (f : Report → Report) (r : Report) (reports : Reports)
    → may_review user r ≡ false
    → reports_after (review_found (if b then some r else none) user report_id f reports) reports
      ≡ reports
unfolding review_found reports_after
found_refused true user report_id f r reports outside = rw outside refl
found_refused false user report_id f r reports outside = refl

review_with_refused :
    (report_id : ℕ) (status : String) (user : User) (f : Report → Report) (r : Report)
    (reports : Reports)
    → find_report report_id reports.rows ≡ some r
    → may_review user r ≡ false
    → reports_after (review_with report_id status user f reports) reports ≡ reports
unfolding review_with get_report reports_after
review_with_refused report_id status user f r reports found outside =
    elim (Bool-cases (is_one_of report_statuses status)) [
      | inl known ↦
          rw (known, visible_to user (find_report report_id reports.rows) r found outside)
            (found_refused (r.submitted_by == user.id) user report_id f r reports outside)
      | inr other ↦ rw other refl
    ]

not_reviewer :
    (user : User) (r : Report)
    → (r.reporting_manager_id == user.id) ≡ false
    → str_eq user.role "admin" ≡ false
    → may_review user r ≡ false
unfolding may_review
not_reviewer user r other viewer = rw (other, viewer) refl

-- A user who is neither the reporting manager of the report with this id nor an admin changes nothing,
-- with either of the two reviews and whatever the status; one who is not its submitter either does not
-- even see it.
pub review_refused :
    (report_id : ℕ) (status : String) (user : User) (comment : Option String) (now : ℕ) (r : Report)
    (reports : Reports)
    → find_report report_id reports.rows ≡ some r
    → (r.reporting_manager_id == user.id) ≡ false
    → str_eq user.role "admin" ≡ false
    → (reports_after (update_report_status report_id status user now reports) reports ≡ reports)
      × ((reports_after (review_report report_id status user comment now reports) reports ≡ reports)
          × (get_report report_id user reports.rows
              ≡ (if r.submitted_by == user.id then some r else none)))
unfolding update_report_status review_report get_report
review_refused report_id status user comment now r reports found other viewer =
    let outside = not_reviewer user r other viewer in
    (
      review_with_refused report_id status user _ r reports found outside,
      (
        review_with_refused report_id status user _ r reports found outside,
        visible_to user (find_report report_id reports.rows) r found outside,
      ),
    )

flip_false : (b : Bool) → not b ≡ false → b ≡ true
flip_false true h = refl
flip_false false h = cc

initial_known :
    (s : String)
    → is_one_of ("draft" ∷ "submitted" ∷ []) s ≡ true
    → is_one_of report_statuses s ≡ true
unfolding is_one_of any_of
initial_known s h = elim (Bool-cases (str_eq s "draft")) [
  | inl one ↦ rw one refl
  | inr other ↦ elim (Bool-cases (str_eq s "submitted")) [
    | inl two ↦ rw (other, two) refl
    | inr neither ↦ cc (rw (other, neither) at h)
  ]
]

module _ (managers : ℕ → Option ℕ) where
  found-AllProper :
      (o : Option Report) (user : User) (report_id : ℕ) (f : Report → Report) (reports : Reports)
      → ((r : Report) → IsProper managers r → IsProper managers (f r))
      → AllProper managers reports
      → AllProper managers (reports_after (review_found o user report_id f reports) reports)
  unfolding review_found write_status reports_after
  found-AllProper none user report_id f reports keeps all = all
  found-AllProper (some r) user report_id f reports keeps all =
      elim (Bool-cases (may_review user r)) [
        | inl may ↦
            rw may (All-update_where (IsProper managers) _ f reports.rows (λ q _. keeps q) all)
        | inr may_not ↦ rw may_not all
      ]

  review_with-AllProper :
      (report_id : ℕ) (status : String) (user : User) (f : Report → Report) (reports : Reports)
      → (is_one_of report_statuses status ≡ true
          → (r : Report) → IsProper managers r
          → IsProper managers (f r))
      → AllProper managers reports
      → AllProper managers (reports_after (review_with report_id status user f reports) reports)
  unfolding review_with reports_after
  review_with-AllProper report_id status user f reports keeps all =
      elim (Bool-cases (is_one_of report_statuses status)) [
        | inl known ↦ rw known (
            found-AllProper (get_report report_id user reports.rows) user report_id f reports
              (keeps known) all)
        | inr other ↦ rw other all
      ]

  either-AllProper :
      (b : Bool) (x y : Result) (reports : Reports)
      → AllProper managers (reports_after x reports)
      → (b ≡ false → AllProper managers (reports_after y reports))
      → AllProper managers (reports_after (if b then x else y) reports)
  either-AllProper true x y reports h k = h
  either-AllProper false x y reports h k = k refl

  inserted-AllProper :
      (manager : Option ℕ) (title : String) (payload : Payload) (user_id : ℕ) (reports : Reports)
      → managers user_id ≡ manager
      → is_one_of report_types (or_text payload.report_type "general") ≡ true
      → is_one_of priorities (or_text payload.priority "medium") ≡ true
      → is_one_of report_statuses (or_text payload.status "submitted") ≡ true
      → AllProper managers reports
      → AllProper managers (reports_after (submit_to manager title payload user_id reports) reports)
  unfolding submit_to insert_report reports_after
  inserted-AllProper none title payload user_id reports e a b c all = all
  inserted-AllProper (some manager_id) title payload user_id reports e a b c all =
      All-append (IsProper managers) reports.rows _ all
        (record { type_known = a; priority_known = b; status_known = c; manager_assigned = e }, tt)

  submit_titled-AllProper :
      (title : Option String) (payload : Payload) (user_id : ℕ) (reports : Reports)
      → AllProper managers reports
      → AllProper managers
          (reports_after (submit_titled title payload (managers user_id) user_id reports) reports)
  unfolding submit_titled reports_after
  submit_titled-AllProper none payload user_id reports all = all
  submit_titled-AllProper (some title) payload user_id reports all =
      either-AllProper (ltb 200 payload.title_length) _ _ reports all λ fits.
        either-AllProper _ _ _ reports all λ a. either-AllProper _ _ _ reports all λ b.
          either-AllProper _ _ _ reports all λ c.
            inserted-AllProper (managers user_id) title payload user_id reports refl
              (flip_false _ a) (flip_false _ b) (initial_known _ (flip_false _ c)) all

  perform-AllProper :
      (r : Request) (reports : Reports)
      → AllProper managers reports
      → AllProper managers (perform managers r reports)
  unfolding perform submit_report update_report_status review_report
  perform-AllProper (submits payload user) reports all =
      submit_titled-AllProper payload.title payload user.id reports all
  perform-AllProper (updates report_id status user now) reports all =
      review_with-AllProper report_id status user _ reports
        (λ known r h. record {
          type_known = h.type_known;
          priority_known = h.priority_known;
          status_known = known;
          manager_assigned = h.manager_assigned;
        })
        all
  perform-AllProper (reviews report_id status user comment now) reports all =
      review_with-AllProper report_id status user _ reports
        (λ known r h. record {
          type_known = h.type_known;
          priority_known = h.priority_known;
          status_known = known;
          manager_assigned = h.manager_assigned;
        })
        all

  -- If it is so at first, then after any submissions and reviews, by any users: each report has a
  -- type, a priority and a status of the lists, and its reporting manager is the one that the
  -- organization gives its submitter, never one that a request named.
  pub perform_all-AllProper :
      (requests : List Request) (reports : Reports)
      → AllProper managers reports
      → AllProper managers (perform_all managers requests reports)
  unfolding perform_all
  perform_all-AllProper [] reports all = all
  perform_all-AllProper (r ∷ requests) reports all =
      perform_all-AllProper requests (perform managers r reports) (perform-AllProper r reports all)
