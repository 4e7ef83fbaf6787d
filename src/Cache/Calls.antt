-- ===== src/Cache/Calls.antt =====
-- Calls of the methods of app/utils/cache.py, as data, in any order and at any times.
use inventory_logix_dashboar.Base.{ℕ, String, Option, List, [], ◌∷◌}
use inventory_logix_dashboar.Cache.{TtlCache, get, set, get_or_set, invalidate, clear}

-- A call of the cache, with the readings of the clock that it makes.
pub data Call {ℓ} (V : Type ℓ) : Type ℓ where
  call_get : String → ℕ → Call V
  call_set : String → V → Option ℕ → ℕ → Call V
  call_get_or_set : String → Option V → ℕ → ℕ → ℕ → Call V
  call_invalidate : String → Call V
  call_clear : Call V

module _ {ℓ} {V : Type ℓ} where
  unfoldable pub perform : Call V → TtlCache V → TtlCache V
  perform (call_get key now) c = (get key now c).1
  perform (call_set key value ttl now) c = set key value ttl now c
  perform (call_get_or_set key producer now again stored) c =
      (get_or_set key producer now again stored c).1
  perform (call_invalidate prefix) c = (invalidate prefix c).1
  perform call_clear c = clear c

  unfoldable pub perform_all : List (Call V) → TtlCache V → TtlCache V
  perform_all [] c = c
  perform_all (call ∷ calls) c = perform_all calls (perform call c)
