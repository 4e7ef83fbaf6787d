-- ===== src/Etl/Codes/Distinct.antt =====
-- app/database/etl.py: the search for a free code ends, and the new codes collide with nothing.
use Prim.Native.String.{◌++◌ as append}
use text.Mathlib.TextLemmas.{append_cancel_left}
use inventory_logix_dashboar.Base.{
  ℕ, zero, suc, ◌+◌, ◌≤◌, ◌<◌, String, ◌≡◌, ◌≢◌, refl, ◌⊎◌, inl, inr, Bool, true, false, ◌&&◌, List,
  [], ◌∷◌, arith, str_eq, eq_iff, if◌then◌else◌, Bool-cases, any_of, length,
}
use inventory_logix_dashboar.Base.Decimal.{str_of, str_of_injective}
use inventory_logix_dashboar.Etl.Codes.{
  NewWarehouse, is_used, suffixed, next_free, unique_code, new_warehouses, parse_warehouse,
}

-- The list without the first copy of the text.
unfoldable erase : String → List String → List String
erase s [] = []
erase s (t ∷ ts) = if str_eq s t then ts else t ∷ erase s ts

length-erase :
    (s : String) (ts : List String) → is_used s ts ≡ true → length ts ≡ suc (length (erase s ts))
unfolding is_used any_of erase
length-erase s [] h = cc
length-erase s (t ∷ ts) h = ground (arith, length-erase s ts)

is_used-erase :
    (s t : String) (ts : List String) → s ≢ t → is_used t ts ≡ true → is_used t (erase s ts) ≡ true
unfolding is_used any_of erase
is_used-erase s t [] ne h = h
is_used-erase s t (u ∷ ts) ne h = ground (arith, is_used-erase s t ts ne, eq_iff s u, eq_iff t u)

suffixed_injective : (code : String) (m n : ℕ) → suffixed code m ≡ suffixed code n → m ≡ n
unfolding suffixed
suffixed_injective code m n e = str_of_injective m n (
    append_cancel_left "-" (str_of m) (str_of n)
      (append_cancel_left code (append "-" (str_of m)) (append "-" (str_of n)) e))

module _ (code : String) where
  -- So many suffixes from `n` on are all used.
  unfoldable all_used : ℕ → ℕ → List String → Bool
  all_used zero n used = true
  all_used (suc k) n used = is_used (suffixed code n) used && all_used k (n + 1) used

  all_used-erase :
      (k m n : ℕ) (used : List String)
      → m < n
      → all_used k n used ≡ true
      → all_used k n (erase (suffixed code m) used) ≡ true
  unfolding all_used
  all_used-erase zero m n used lt h = refl
  all_used-erase (suc k) m n used lt h =
      let ne : suffixed code m ≢ suffixed code n =
        λ e. absurd (omega (arith, suffixed_injective code m n e)) in
      ground (
        arith,
        all_used-erase k m (n + 1) used,
        is_used-erase (suffixed code m) (suffixed code n) used ne,
      )

  -- Different texts that are all in a list are no more than the list is long.
  all_used-le : (k n : ℕ) (used : List String) → all_used k n used ≡ true → k ≤ length used
  unfolding all_used
  all_used-le zero n used h = omega arith
  all_used-le (suc k) n used h = ground (
    arith,
    length-erase (suffixed code n) used,
    all_used-erase k n (n + 1) used,
    all_used-le k (n + 1) (erase (suffixed code n) used),
  )

  next_free_lem :
      (fuel n : ℕ) (used : List String)
      → (is_used (suffixed code (next_free fuel code used n)) used ≡ false)
        ⊎ (all_used (suc fuel) n used ≡ true)
  unfolding next_free all_used
  next_free_lem zero n used = elim (Bool-cases (is_used (suffixed code n) used)) [
    | inl taken ↦ inr (ground arith)
    | inr free ↦ inl free
  ]
  next_free_lem (suc fuel) n used = elim (Bool-cases (is_used (suffixed code n) used)) [
    | inl taken ↦ elim (next_free_lem fuel (n + 1) used) [
      | inl found ↦ inl (rw (taken, next_free) found)
      | inr all ↦ inr (ground arith)
    ]
    | inr free ↦ inl (rw (free, next_free) free)
  ]

-- The code that `_build_dims` gives a warehouse is never one that is used: its `while` loop ends at a
-- free suffix after at most as many rounds as there are codes.
pub unique_code_fresh :
    (code : String) (used : List String) → is_used (unique_code code used) used ≡ false
unfolding unique_code
unique_code_fresh code used = elim (Bool-cases (is_used code used)) [
  | inr free ↦ rw free free
  | inl taken ↦ elim (next_free_lem code (length used) 2 used) [
    | inl found ↦ rw taken found
    | inr all ↦ absurd (omega (arith, all_used-le code (suc (length used)) 2 used all))
  ]
]

-- No row's code is used before it or in the table.
abbrev pub HasFreshCodes : List String → List NewWarehouse → Type 0
HasFreshCodes used [] = Unit
HasFreshCodes used (row ∷ rows) =
    (is_used row.warehouse_code used ≡ false) × HasFreshCodes (row.warehouse_code ∷ used) rows

-- The rows that `_build_dims` inserts into `dim_warehouse` have codes that differ from all the codes
-- in the table and from one another, however many of the names give the same short code.
pub new_warehouses-HasFreshCodes :
    (known used names : List String) → HasFreshCodes used (new_warehouses known used names)
unfolding new_warehouses
new_warehouses-HasFreshCodes known used [] = tt
new_warehouses-HasFreshCodes known used (name ∷ names) =
    elim (Bool-cases (any_of (str_eq name) known)) [
      | inl old ↦ rw (old, new_warehouses) (new_warehouses-HasFreshCodes known used names)
      | inr fresh ↦
          rw (fresh, new_warehouses)
            (
              unique_code_fresh (parse_warehouse name).warehouse_code used,
              new_warehouses-HasFreshCodes known
                  (unique_code (parse_warehouse name).warehouse_code used ∷ used) names,
            )
    ]
