-- ===== src/Etl/Retry.antt =====
-- app/database/etl.py, `_retry_operation`: how often it calls, what it answers and how long it waits.
use inventory_logix_dashboar.Base.{
  ℕ, zero, suc, ◌+◌, ◌-◌, ◌<◌, ◌≡◌, refl, ap, inl, inr, String, Bool, true, false, not, ◌&&◌, ◌||◌,
  some, List, [], ◌∷◌, arith, str_eq, if◌then◌else◌, ◌==◌, Bool-cases,
}
use inventory_logix_dashboar.Base.Dict.{OrderedDict, lookup-assign}
use inventory_logix_dashboar.Base.Decimal.{str_of, int_unsigned, int_unsigned-str_of}
use inventory_logix_dashboar.JobQueue.{Outcome, returned, raised}
use inventory_logix_dashboar.Etl.{
  Retried, slept, delay, goes_on, retry_from, retry_operation, read_state, write_state, watermark,
}

abbrev pub is_transient {ℓ} : {A : Type ℓ} → Outcome A → Bool
is_transient (returned a) = false
is_transient (raised e) = e.is_connection_error

-- The waits before so many further calls.
unfoldable pub waits : (ℕ → ℕ) → ℕ → ℕ → List ℕ
waits wait attempt zero = []
waits wait attempt (suc n) = wait attempt ∷ waits wait (suc attempt) n

goes_on_iff {ℓ} :
    {A : Type ℓ} (max_retries attempt : ℕ) (o : Outcome A)
    → goes_on max_retries attempt o ≡ (is_transient o && not (attempt == max_retries - 1))
unfolding goes_on
goes_on_iff max_retries attempt (returned a) = refl
goes_on_iff max_retries attempt (raised e) = refl

module _ {ℓ κ} {A : Type ℓ} {W : Type κ} (func : W → Outcome A × W) where
  -- The world after so many calls.
  unfoldable pub calls : ℕ → W → W
  calls zero w = w
  calls (suc n) w = calls n (func w).1

  -- So many calls in a row raise connection errors.
  unfoldable pub all_transient : ℕ → W → Bool
  all_transient zero w = true
  all_transient (suc n) w = is_transient (func w).0 && all_transient n (func w).1

  -- The run that calls `n` times more after the first call, for what it leaves.
  unfoldable pub run_of : (ℕ → ℕ) → ℕ → ℕ → W → Retried A W
  run_of wait attempt n w = record {
    outcome = some (func (calls n w)).0;
    sleeps = waits wait attempt n;
    world = calls (suc n) w;
  }

  -- The last call is no connection error, or is the last that is allowed.
  abbrev pub settles : ℕ → ℕ → W → Bool
  settles allowed n w = not (is_transient (func (calls n w)).0) || (suc n == allowed)

  retry_from_lem :
      (wait : ℕ → ℕ) (max_retries rounds attempt : ℕ) (w : W)
      → attempt + suc rounds ≡ max_retries
      → (n : ℕ) × (n < suc rounds)
        × (all_transient n w ≡ true)
        × (settles (suc rounds) n w ≡ true)
        × (retry_from func wait max_retries (suc rounds) attempt w ≡ run_of wait attempt n w)
  unfolding retry_from calls all_transient run_of waits
  retry_from_lem wait max_retries zero attempt w e =
      let off : goes_on max_retries attempt (func w).0 ≡ false =
        ground (arith, goes_on_iff max_retries attempt (func w).0) in
      (0, omega arith, refl, ground arith, rw (off, retry_from))
  retry_from_lem wait max_retries (suc rounds) attempt w e =
      elim (Bool-cases (goes_on max_retries attempt (func w).0)) [
        | inl on ↦
            let (n, lt, before, end, same) =
              retry_from_lem wait max_retries rounds (suc attempt) (func w).1 (omega arith) in
            (
              suc n,
              omega arith,
              ground (arith, goes_on_iff max_retries attempt (func w).0),
              ground arith,
              rw (on, retry_from) (ap (slept (wait attempt)) same),
            )
        | inr off ↦ (
          0,
          omega arith,
          refl,
          ground (arith, goes_on_iff max_retries attempt (func w).0),
          rw (off, retry_from),
        )
      ]

-- With at least one retry allowed, `_retry_operation` ends after some number of calls within the
-- limit: all but the last raised connection errors, the last did not or is the last allowed, and the
-- answer, the world and the waits are those of exactly these calls.
pub retry_operation_lem {ℓ κ} :
    {A : Type ℓ} {W : Type κ} (func : W → Outcome A × W) (max_retries base_delay max_delay : ℕ)
    (w : W)
    → 0 < max_retries
    → (n : ℕ) × (n < max_retries)
      × (all_transient func n w ≡ true)
      × (settles func max_retries n w ≡ true)
      × (retry_operation func max_retries base_delay max_delay w
          ≡ run_of func (delay base_delay max_delay) 0 n w)
unfolding retry_operation
retry_operation_lem func zero base_delay max_delay w h = absurd (omega arith)
retry_operation_lem func (suc rounds) base_delay max_delay w h =
    retry_from_lem func (delay base_delay max_delay) (suc rounds) rounds 0 w (omega arith)

-- A number written to the state table under one key is read back under that key as the same number,
-- whatever stood there; under every other key the table reads as before.
pub read_state-write_state :
    (k j default : String) (n : ℕ) (rows : OrderedDict String)
    → int_unsigned (read_state j default (write_state k n rows))
      ≡ (if str_eq k j then some n else int_unsigned (read_state j default rows))
unfolding write_state read_state
read_state-write_state k j default n rows = elim (Bool-cases (str_eq k j)) [
  | inl same ↦ rw (lookup-assign k j (str_of n) rows, same, int_unsigned-str_of n)
  | inr other ↦ rw (lookup-assign k j (str_of n) rows, other)
]

pub watermark-write_state :
    (id : ℕ) (rows : OrderedDict String) → watermark (write_state "last_movement_id" id rows) ≡ id
unfolding watermark
watermark-write_state id rows =
    rw (read_state-write_state "last_movement_id" "last_movement_id" "0" id rows)
