-- ===== src/Stock/Accepts.antt =====
-- What the checks of the movement lists let through, and that the three lists agree.
use inventory_logix_dashboar.Base.{
  ℕ, zero, suc, ◌≤◌, String, ◌≡◌, refl, sym, ap, ◌∙◌, Bool, true, false, Option, none, some, List,
  [], ◌∷◌, arith, is_some, Bool-cases, Option-cases, inl, inr, All,
}
use inventory_logix_dashboar.Base.Int.{ℤ, pos, negsuc}
use inventory_logix_dashboar.Stock.{movement_type}
use inventory_logix_dashboar.Stock.Query.{
  Filters, QueryError, Checked, rejected, passed, at_least_one, capped, is_sort_field,
  is_sort_order, type_list, bad_types, bad_type_list, bad_filters, bad_export_filters, first_error,
  pass_unless, bad_sorting, paged, list_movements, limited, export_movements,
}

-- The predicate holds of what is passed on, if anything is.
abbrev pub Passes : {A : Type 0} → (A → Type 0) → Checked A → Type 0
Passes P (rejected e) = Unit
Passes P (passed q) = P q

abbrev pub is_passed : {A : Type 0} → Checked A → Bool
is_passed (rejected e) = false
is_passed (passed q) = true

-- Each type is one of `ALLOWED_TYPES`.
abbrev pub AllAllowed : Option (List String) → Type 0
AllAllowed none = Unit
AllAllowed (some ts) = All (λ t. is_some (movement_type t) ≡ true) ts

-- What the procedures rely on: the sorting is of the known ones, and so are the types.
pub record IsSafe (types : Option (List String)) (sort_by sort_order : String) : Type 0 where
  pub sort_field_known : is_sort_field sort_by ≡ true
  pub sort_order_known : is_sort_order sort_order ≡ true
  pub types_allowed : AllAllowed types

AllAllowed-bad_types : (ts : List String) → bad_types ts ≡ none → AllAllowed (some ts)
unfolding bad_types
AllAllowed-bad_types [] h = tt
AllAllowed-bad_types (t ∷ ts) h = elim (Bool-cases (is_some (movement_type t))) [
  | inl allowed ↦ (allowed, AllAllowed-bad_types ts (rw allowed at h))
  | inr other ↦ cc (rw other at h)
]

AllAllowed-bad_type_list :
    (types : Option (List String)) → bad_type_list types ≡ none → AllAllowed types
unfolding bad_type_list
AllAllowed-bad_type_list none h = tt
AllAllowed-bad_type_list (some ts) h = AllAllowed-bad_types ts h

first_error-none : (a b : Option QueryError) → first_error a b ≡ none → (a ≡ none) × (b ≡ none)
unfolding first_error
first_error-none none b h = (refl, h)
first_error-none (some e) b h = cc

sorting_known :
    (sort_by sort_order : String)
    → bad_sorting sort_by sort_order ≡ none
    → (is_sort_field sort_by ≡ true) × (is_sort_order sort_order ≡ true)
unfolding bad_sorting
sorting_known sort_by sort_order h = elim (Bool-cases (is_sort_field sort_by)) [
  | inl field ↦ elim (Bool-cases (is_sort_order sort_order)) [
    | inl order ↦ (field, order)
    | inr other ↦ cc (rw (field, other) at h)
  ]
  | inr other ↦ cc (rw other at h)
]

checked-IsSafe :
    (is_iso_date : String → Bool) (f : Filters) (sort_by sort_order : String)
    → first_error (bad_sorting sort_by sort_order) (bad_filters is_iso_date f) ≡ none
    → IsSafe (type_list f.types) sort_by sort_order
unfolding bad_filters
checked-IsSafe is_iso_date f sort_by sort_order h =
    let both = first_error-none _ _ h in
    let known = sorting_known sort_by sort_order both.0 in
    record {
      sort_field_known = known.0;
      sort_order_known = known.1;
      types_allowed = AllAllowed-bad_type_list _ (first_error-none _ _ both.1).0;
    }

at_least_one_bounds : (x : ℤ) (n : ℕ) → at_least_one x ≡ some n → 1 ≤ n
unfolding at_least_one
at_least_one_bounds (negsuc k) n h = cc
at_least_one_bounds (pos zero) n h = cc
at_least_one_bounds (pos (suc k)) n h = ground arith

capped_bounds : (bound n : ℕ) → 1 ≤ n → 1 ≤ bound → (1 ≤ capped bound n) × (capped bound n ≤ bound)
unfolding capped
capped_bounds bound n h k = ground arith

-- A list that is passed on has a page of at least 1, between 1 and 100 rows, and a known sorting and
-- types.
pub list_movements-bounds :
    (is_iso_date : String → Bool) (f : Filters) (page per_page : ℤ) (sort_by sort_order : String)
    → Passes
        (λ q.
          ((1 ≤ q.page) × ((1 ≤ q.per_page) × (q.per_page ≤ 100)))
          × IsSafe q.types q.sort_by q.sort_order)
        (list_movements is_iso_date f page per_page sort_by sort_order)
unfolding list_movements paged pass_unless
list_movements-bounds is_iso_date f page per_page sort_by sort_order =
    elim (Option-cases (at_least_one page)) [
      | inl low ↦ rw low tt
      | inr (n, first) ↦ rw first (elim (Option-cases (at_least_one per_page)) [
        | inl low ↦ rw low tt
        | inr (m, size) ↦
            rw size
              (elim (Option-cases
                (first_error (bad_sorting sort_by sort_order) (bad_filters is_iso_date f))) [
                  | inl fine ↦ rw fine (
                    (
                      at_least_one_bounds page n first,
                      capped_bounds 100 m (at_least_one_bounds per_page m size) (omega arith),
                    ),
                    checked-IsSafe is_iso_date f sort_by sort_order fine,
                  )
                  | inr (e, bad) ↦ rw bad tt
                ])
      ])
    ]

-- So is the copy in `export_movements`.
export_filters_lem :
    (is_iso_date : String → Bool) (f : Filters)
    → bad_export_filters is_iso_date f ≡ bad_filters is_iso_date f
unfolding bad_export_filters bad_filters
export_filters_lem is_iso_date f = refl

-- An export that is passed on has between 1 and 5000 rows, and a known sorting and types.
pub export_movements-bounds :
    (is_iso_date : String → Bool) (f : Filters) (sort_by sort_order : String) (limit : ℤ)
    → Passes
        (λ q. ((1 ≤ q.limit) × (q.limit ≤ 5000)) × IsSafe q.types q.sort_by q.sort_order)
        (export_movements is_iso_date f sort_by sort_order limit)
unfolding export_movements limited pass_unless
export_movements-bounds is_iso_date f sort_by sort_order limit =
    elim (Option-cases (at_least_one limit)) [
      | inl low ↦ rw low tt
      | inr (n, size) ↦
          rw size
            (elim (Option-cases
              (first_error (bad_sorting sort_by sort_order) (bad_export_filters is_iso_date f))) [
                | inl fine ↦ rw fine (
                  capped_bounds 5000 n (at_least_one_bounds limit n size) (omega arith),
                  checked-IsSafe is_iso_date f sort_by sort_order (
                      ap (first_error (bad_sorting sort_by sort_order))
                        (sym (export_filters_lem is_iso_date f))
                      ∙ fine),
                )
                | inr (e, bad) ↦ rw bad tt
              ])
    ]
