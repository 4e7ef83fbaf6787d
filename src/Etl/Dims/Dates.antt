-- ===== src/Etl/Dims/Dates.antt =====
-- app/database/etl.py, `_build_dim_dates`: exactly the missing days of the range come in.
use inventory_logix_dashboar.Base.{
  ℕ, zero, suc, ◌+◌, ◌-◌, ◌≡◌, refl, inl, inr, Bool, true, false, not, ◌&&◌, ◌||◌, List, [], ◌∷◌,
  ◌++◌, arith, leb, ltb, ◌==◌, ==_iff, Bool-cases, keep_if, any_of, length,
}
use inventory_logix_dashboar.Etl.Facts.{in_days}
use inventory_logix_dashboar.Etl.Dims.{has_day, days_from, iter_dates, build_dim_dates}

has_day-append : (d : ℕ) (xs ys : List ℕ) → has_day d (xs ++ ys) ≡ (has_day d xs || has_day d ys)
unfolding has_day any_of
has_day-append d [] ys = refl
has_day-append d (x ∷ xs) ys = ground (arith, has_day-append d xs ys)

has_day-keep_if :
    (d : ℕ) (p : ℕ → Bool) (xs : List ℕ) → has_day d (keep_if p xs) ≡ (p d && has_day d xs)
unfolding has_day any_of keep_if
has_day-keep_if d p [] = ground arith
has_day-keep_if d p (x ∷ xs) = elim (Bool-cases (x == d)) [
  | inl same ↦ let e : x ≡ d = (==_iff x d).0 same in rw e (ground (arith, has_day-keep_if d p xs))
  | inr other ↦ ground (arith, has_day-keep_if d p xs)
]

has_day-days_from :
    (d n start : ℕ) → has_day d (days_from n start) ≡ (leb start d && ltb d (start + n))
unfolding has_day any_of days_from
has_day-days_from d zero start = ground arith
has_day-days_from d (suc n) start = ground (arith, has_day-days_from d n (suc start))

has_day-iter_dates : (d start end : ℕ) → has_day d (iter_dates start end) ≡ in_days start end d
unfolding iter_dates in_days
has_day-iter_dates d start end = ground (arith, has_day-days_from d (suc end - start) start)

no_rows :
    (p : ℕ → Bool) (xs : List ℕ)
    → ((d : ℕ) → has_day d xs ≡ true → p d ≡ false)
    → length (keep_if p xs) ≡ 0
unfolding has_day any_of keep_if
no_rows p [] h = refl
no_rows p (x ∷ xs) h = ground (arith, h x, no_rows p xs (λ d m. h d (ground (arith))))

added :
    (d start end : ℕ) (dim_dates : List ℕ)
    → has_day d (build_dim_dates start end dim_dates).0
      ≡ (has_day d dim_dates || in_days start end d)
unfolding build_dim_dates
added d start end dim_dates =
    let existing = keep_if (in_days start end) dim_dates in
    let missing = λ (d : ℕ). not (has_day d existing) in
    ground (
      arith,
      has_day-append d dim_dates (keep_if missing (iter_dates start end)),
      has_day-keep_if d missing (iter_dates start end),
      has_day-keep_if d (in_days start end) dim_dates,
      has_day-iter_dates d start end,
    )

-- After `_build_dim_dates` the table has a day exactly when it had it before or the day is in the
-- range, and a second run over the same range adds no row.
pub has_day-build_dim_dates :
    (d start end : ℕ) (dim_dates : List ℕ)
    → let once = (build_dim_dates start end dim_dates).0 in
      (has_day d once ≡ (has_day d dim_dates || in_days start end d))
      × ((build_dim_dates start end once).1 ≡ 0)
unfolding build_dim_dates
has_day-build_dim_dates d start end dim_dates =
    let once = (build_dim_dates start end dim_dates).0 in
    let existing = keep_if (in_days start end) once in
    (
      added d start end dim_dates,
      no_rows (λ (e : ℕ). not (has_day e existing)) (iter_dates start end)
          (λ e inside. ground (
            arith,
            has_day-iter_dates e start end,
            has_day-keep_if e (in_days start end) once,
            added e start end dim_dates,
          )),
    )
