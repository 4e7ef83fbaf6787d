-- ===== src/Etl.antt =====
-- app/database/etl.py: the warehouse load. Here its retries and the texts of its state table; the
-- child modules hold the codes of the warehouses, the fact table and the staged run.
pub mod Retry
pub mod Codes
pub mod Facts
pub mod Dims
pub mod Session
pub mod Run
mod Examples
use Prim.Native.Nat.{◌^◌}
use inventory_logix_dashboar.Base.{
  ℕ, zero, suc, ◌-◌, ◌*◌, min, String, Bool, true, false, not, ◌&&◌, Option, none, some, List, [],
  ◌∷◌, ◌==◌, if◌then◌else◌,
}
use inventory_logix_dashboar.Base.Dict.{OrderedDict, lookup, assign}
use inventory_logix_dashboar.Base.Decimal.{str_of, int_unsigned}
use inventory_logix_dashboar.JobQueue.{Outcome, returned, raised}

-- What `_retry_operation` leaves: `none` if it falls out of its loop, the seconds that it slept, and
-- the world after the calls.
pub record Retried {ℓ κ} (A : Type ℓ) (W : Type κ) : Type (ℓ ⊔ κ) where
  pub outcome : Option (Outcome A)
  pub sleeps : List ℕ
  pub world : W

-- `min(base_delay * (2**attempt), max_delay)`
unfoldable pub delay : ℕ → ℕ → ℕ → ℕ
delay base_delay max_delay attempt = min (base_delay * 2 ^ attempt) max_delay

-- Whether the loop goes on after the call: a connection error, and not in the last round.
unfoldable pub goes_on {ℓ} : {A : Type ℓ} → ℕ → ℕ → Outcome A → Bool
goes_on max_retries attempt (returned a) = false
goes_on max_retries attempt (raised e) = e.is_connection_error && not (attempt == max_retries - 1)

module _ {ℓ κ} {A : Type ℓ} {W : Type κ} where
  abbrev pub ended : Outcome A × W → Retried A W
  ended r = record { outcome = some r.0; sleeps = []; world = r.1 }

  abbrev pub slept : ℕ → Retried A W → Retried A W
  slept seconds r = record r { sleeps = seconds ∷ r.sleeps }

  -- The loop of `_retry_operation` from an attempt on, with the rounds that `range` has left.
  unfoldable pub retry_from : (W → Outcome A × W) → (ℕ → ℕ) → ℕ → ℕ → ℕ → W → Retried A W
  retry_from func wait max_retries zero attempt w = record {
    outcome = none;
    sleeps = [];
    world = w;
  }
  retry_from func wait max_retries (suc rounds) attempt w =
      elim (goes_on max_retries attempt (func w).0) [
        | true ↦
            slept (wait attempt) (retry_from func wait max_retries rounds (suc attempt) (func w).1)
        | false ↦ ended (func w)
      ]

  unfoldable pub retry_operation : (W → Outcome A × W) → ℕ → ℕ → ℕ → W → Retried A W
  retry_operation func max_retries base_delay max_delay w =
      retry_from func (delay base_delay max_delay) max_retries max_retries 0 w

abbrev or_default {ℓ} : {A : Type ℓ} → A → Option A → A
or_default a none = a
or_default a (some b) = b

-- `_read_state`
unfoldable pub read_state : String → String → OrderedDict String → String
read_state key default rows = or_default default (lookup key rows)

-- `_write_state` of a number
unfoldable pub write_state : String → ℕ → OrderedDict String → OrderedDict String
write_state key value rows = assign key (str_of value) rows

-- `int(_read_state(cur, "last_movement_id", 0) or 0)`; only texts that `_write_state` made of a
-- number stand there, so the sign and the `ValueError` of `int` do not arise.
unfoldable pub watermark : OrderedDict String → ℕ
watermark rows = or_default 0 (int_unsigned (read_state "last_movement_id" "0" rows))
