-- ===== src/Cache/Flights.antt =====
-- app/utils/cache.py, `get_or_set` by many threads for one key: each thread looks, waits for the lock of
-- the key, looks again and runs the producer, and the threads' steps come in any order. What `_lock`
-- guards is one step, and so is what a thread does between taking the lock of the key and the call of
-- the producer.
use inventory_logix_dashboar.Base.{
  ℕ, ◌+◌, ◌≤◌, ◌<◌, String, ◌≡◌, refl, false, Option, none, some, List, [], ◌∷◌, arith, ◌==◌,
  eq_iff, leb, if◌then◌else◌,
}
use inventory_logix_dashboar.Base.Dict.{lookup, remove, move_to_end, lookup-remove, lookup-snoc}
use inventory_logix_dashboar.Cache.{Entry, TtlCache, get, set}

-- Where a thread is in `get_or_set`.
pub data Phase : Type 0 where
  outside waiting producing : Phase

-- `lock` is the thread that holds the lock of the key; `calls` counts the calls of the producer and
-- `failures` those that raised.
pub record Flight {ℓ} (V : Type ℓ) : Type ℓ where
  pub cache : TtlCache V
  pub lock : Option ℕ
  pub phase : ℕ → Phase
  pub calls : ℕ
  pub failures : ℕ

-- A step of a thread, with the time of its clock.
pub data Move {ℓ} (V : Type ℓ) : Type ℓ where
  look : ℕ → ℕ → Move V
  enter : ℕ → ℕ → Move V
  publish : ℕ → V → ℕ → Move V
  raise : ℕ → Move V

unfoldable pub set_phase : ℕ → Phase → (ℕ → Phase) → ℕ → Phase
set_phase t p phase u = if u == t then p else phase u

module _ {ℓ} {V : Type ℓ} where
  -- No thread is in `get_or_set`.
  abbrev pub at_rest : TtlCache V → Flight V
  at_rest c = record { cache = c; lock = none; phase = λ t. outside; calls = 0; failures = 0 }

  -- The first look: a hit returns at once.
  unfoldable pub looked : ℕ → Phase → Option V × TtlCache V → Flight V → Flight V
  looked t outside (some v, c) st = record st { cache = c }
  looked t outside (none, c) st = record st { cache = c; phase = set_phase t waiting st.phase }
  looked t waiting r st = st
  looked t producing r st = st

  -- The lock is free: the second look, and on a miss the call of the producer, which holds the lock.
  unfoldable pub entered : ℕ → Phase → Option ℕ → Option V × TtlCache V → Flight V → Flight V
  entered t waiting none (some v, c) st = record st {
    cache = c;
    phase = set_phase t outside st.phase;
  }
  entered t waiting none (none, c) st = record st {
    cache = c;
    lock = some t;
    phase = set_phase t producing st.phase;
    calls = st.calls + 1;
  }
  entered t waiting (some u) r st = st
  entered t outside l r st = st
  entered t producing l r st = st

  unfoldable pub released : ℕ → TtlCache V → ℕ → Phase → Flight V → Flight V
  released t c failures producing st = record st {
    cache = c;
    lock = none;
    phase = set_phase t outside st.phase;
    failures = st.failures + failures;
  }
  released t c failures outside st = st
  released t c failures waiting st = st

  -- A step of a thread that is not there in `get_or_set` does nothing.
  unfoldable pub move : String → Move V → Flight V → Flight V
  unfolding looked entered released
  move key (look t now) st = looked t (st.phase t) (get key now st.cache) st
  move key (enter t now) st = entered t (st.phase t) st.lock (get key now st.cache) st
  move key (publish t value now) st = released t (set key value none now st.cache) 0 (st.phase t) st
  move key (raise t) st = released t st.cache 1 (st.phase t) st

  unfoldable pub move_all : String → List (Move V) → Flight V → Flight V
  unfolding move
  move_all key [] st = st
  move_all key (m ∷ moves) st = move_all key moves (move key m st)

  -- The entry of the key lasts up to the time.
  abbrev pub Lasts : String → ℕ → TtlCache V → Type ℓ
  Lasts key horizon c = (e : Entry V) × (lookup key c.store ≡ some e) × (horizon ≤ e.expiry)

  pub get-Lasts :
      (key : String) (horizon now : ℕ) (c : TtlCache V)
      → now < horizon
      → Lasts key horizon c
      → (v : V) × ((get key now c).0 ≡ some v) × Lasts key horizon (get key now c).1
  unfolding get move_to_end
  get-Lasts key horizon now c lt (e, found, lasts) =
      let live : leb e.expiry now ≡ false = ground arith in
      rw (found, live)
        (
          e.value,
          refl,
          (
            e,
            rw found (
                ground (
                  arith,
                  lookup-snoc key key e (remove key c.store),
                  lookup-remove key key c.store,
                  eq_iff key key,
                )),
            lasts,
          ),
        )
