-- ===== src/Auth/Shared.antt =====
-- The counter of failed attempts that the worker processes share, in `rate_limit_state`.
use inventory_logix_dashboar.Base.{
  ℕ, ◌+◌, ◌≤◌, String, ◌≡◌, refl, ap, ◌∙◌, true, false, Option, none, some, List, [], ◌∷◌, arith,
  ltb, leb, length, All, is_some, eq_iff,
}
use inventory_logix_dashboar.Base.Dict.{OrderedDict, lookup, lookup-assign}
use inventory_logix_dashboar.Auth.{
  RateRow, live_count, check_row, check_rate_limit, bumped, record_failed_attempt,
}

-- Failed attempts for one key, at these times, by any workers.
unfoldable pub record_all : String → List ℕ → OrderedDict RateRow → OrderedDict RateRow
record_all key [] rates = rates
record_all key (now ∷ times) rates = record_all key times (record_failed_attempt key now rates)

-- The time is in the window of the first attempt.
abbrev pub Within : ℕ → ℕ → Type 0
Within start now = (start ≤ now) × (now ≤ start + 900)

bumped_within :
    (count start expires now : ℕ)
    → now ≤ start + 900
    → bumped (some (record { count = count; window_start = start; expires_at = expires })) now
      ≡ record { count = count + 1; window_start = start; expires_at = now + 900 }
unfolding bumped
bumped_within count start expires now h =
    let e : ltb (start + 900) now ≡ false = ground arith in rw e refl

recorded :
    (key : String) (o : Option RateRow) (now : ℕ) (rates : OrderedDict RateRow)
    → lookup key rates ≡ o
    → lookup key (record_failed_attempt key now rates) ≡ some (bumped o now)
unfolding record_failed_attempt
recorded key o now rates h =
    rw (lookup-assign key key (bumped (lookup key rates) now) rates)
      (rw h (ground (arith, eq_iff key key)))

record_all-count :
    (key : String) (start count expires : ℕ) (times : List ℕ) (rates : OrderedDict RateRow)
    → lookup key rates ≡ some (record { count = count; window_start = start; expires_at = expires })
    → start + 900 ≤ expires
    → All (Within start) times
    → (row : RateRow) × ((lookup key (record_all key times rates) ≡ some row)
        × ((row.count ≡ count + length times)
            × ((row.window_start ≡ start) × (start + 900 ≤ row.expires_at))))
unfolding record_all
record_all-count key start count expires [] rates h late all = (
  record { count = count; window_start = start; expires_at = expires },
  (h, (omega arith, (refl, late))),
)
record_all-count key start count expires (now ∷ times) rates h late all =
    let next =
      recorded key (some (record { count = count; window_start = start; expires_at = expires })) now
        rates h
      ∙ ap some (bumped_within count start expires now all.0.1) in
    let rest =
      record_all-count key start (count + 1) (now + 900) times (record_failed_attempt key now rates)
        next (omega (arith, all.0.0)) all.1 in
    (rest.0, (rest.1.0, (omega (arith, rest.1.1.0), rest.1.1.1)))

live_row_locks :
    (row : RateRow) (now : ℕ)
    → 5 ≤ row.count
    → now ≤ row.window_start + 900
    → now ≤ row.expires_at
    → is_some (check_row (some row) now) ≡ true
unfolding check_row live_count
live_row_locks row now many soon early =
    let a : ltb (row.window_start + 900) now ≡ false = ground arith in
    let b : ltb row.expires_at now ≡ false = ground arith in
    let c : leb 5 row.count ≡ true = ground arith in rw (a, b, c) refl

-- For a key with no row: five failed attempts or more for it within fifteen minutes of the first,
-- by whatever workers, lock the key in every worker until the fifteen minutes are over.
pub record_all-check_rate_limit :
    (key : String) (start now : ℕ) (times : List ℕ) (rates : OrderedDict RateRow)
    → lookup key rates ≡ none
    → All (Within start) times
    → 4 ≤ length times
    → Within start now
    → is_some (check_rate_limit key now (record_all key (start ∷ times) rates)) ≡ true
unfolding check_rate_limit record_all bumped
record_all-check_rate_limit key start now times rates absent all many within =
    let first = recorded key none start rates absent in
    let last =
      record_all-count key start 1 (start + 900) times (record_failed_attempt key start rates) first
        (omega arith) all in
    rw last.1.0 (
      live_row_locks last.0 now (omega (arith, last.1.1.0)) (rw last.1.1.1.0 within.1)
        (omega (arith, last.1.1.1.1, within.1)))
