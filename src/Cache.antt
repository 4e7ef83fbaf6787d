-- ===== src/Cache.antt =====
-- app/utils/cache.py: the in-process cache with a lifetime for each entry and eviction of the
-- least recently used. Times are numbers of clock ticks; each call of `time.time()` is an argument.
pub mod Lookup
pub mod Eviction
pub mod Calls
pub mod Bounds
pub mod Busts
pub mod Flights
pub mod Herd
mod Examples
use inventory_logix_dashboar.Base.{
  ℕ, ◌+◌, String, Bool, true, false, not, Option, none, some, List, [], ◌∷◌, ltb, leb, length,
  keep_if, if◌then◌else◌,
}
use text.Mathlib.Text.{starts_with}
use inventory_logix_dashboar.Base.Dict.{OrderedDict, lookup, assign, remove, move_to_end}

-- `(absolute_expiry, value)`
pub record Entry {ℓ} (V : Type ℓ) : Type ℓ where
  pub expiry : ℕ
  pub value : V

-- `TTLCache`; the store has the least recently used key first.
pub record TtlCache {ℓ} (V : Type ℓ) : Type ℓ where
  pub ttl : ℕ
  pub max_entries : ℕ
  pub store : OrderedDict (Entry V)
  pub hits : ℕ
  pub misses : ℕ

-- `stats`, without the `ttl`
pub record Stats : Type 0 where
  pub entries : ℕ
  pub max_entries : ℕ
  pub hits : ℕ
  pub misses : ℕ

module _ {ℓ} {V : Type ℓ} where
  unfoldable pub new : ℕ → ℕ → TtlCache V
  new ttl max_entries = record {
    ttl = ttl;
    max_entries = max_entries;
    store = [];
    hits = 0;
    misses = 0;
  }

  -- The part of `get` that follows the lookup. `none` is the caller's default.
  get_entry : Option (Entry V) → String → ℕ → TtlCache V → Option V × TtlCache V
  get_entry none key now c = (none, record c { misses = c.misses + 1 })
  get_entry (some entry) key now c =
      if leb entry.expiry now
      then (none, record c { store = remove key c.store; misses = c.misses + 1 })
      else (some entry.value, record c { store = move_to_end key c.store; hits = c.hits + 1 })

  unfoldable pub get : String → ℕ → TtlCache V → Option V × TtlCache V
  unfolding get_entry
  get key now c = get_entry (lookup key c.store) key now c

  -- `while len(store) > max_entries: store.popitem(last=False)`
  unfoldable pub evict : ℕ → OrderedDict (Entry V) → OrderedDict (Entry V)
  evict max_entries [] = []
  evict max_entries (e ∷ store) =
      let rest = evict max_entries store in
      if ltb max_entries (length (e ∷ store)) then rest else e ∷ store

  -- the lifetime of an entry: the call's, or else the cache's
  abbrev pub lifetime : Option ℕ → TtlCache V → ℕ
  lifetime none c = c.ttl
  lifetime (some ttl) c = ttl

  unfoldable pub set : String → V → Option ℕ → ℕ → TtlCache V → TtlCache V
  unfolding evict
  set key value ttl now c =
      let entry : Entry V = record { expiry = now + lifetime ttl c; value = value } in
      record c { store = evict c.max_entries (move_to_end key (assign key entry c.store)) }

  -- The producer's answer is stored and returned; `none` is a producer that raises.
  produce : Option V → String → ℕ → TtlCache V → Option V × TtlCache V
  produce none key stored c = (none, c)
  produce (some value) key stored c = (some value, set key value none stored c)

  -- The second look, under the lock of the key.
  look_again : Option V × TtlCache V → Option V → String → ℕ → Option V × TtlCache V
  look_again (some value, c) producer key stored = (some value, c)
  look_again (none, c) producer key stored = produce producer key stored c

  -- The first look, with no lock of the key.
  look_first : Option V × TtlCache V → Option V → String → ℕ → ℕ → Option V × TtlCache V
  look_first (some value, c) producer key again stored = (some value, c)
  look_first (none, c) producer key again stored = look_again (get key again c) producer key stored

  -- `get_or_set` by one thread: the clock is read at the first look, at the second look and when
  -- the produced value is stored.
  unfoldable pub get_or_set : String → Option V → ℕ → ℕ → ℕ → TtlCache V → Option V × TtlCache V
  unfolding look_first look_again produce set get
  get_or_set key producer now again stored c = look_first (get key now c) producer key again stored

  unfoldable pub invalidate : String → TtlCache V → ℕ × TtlCache V
  invalidate prefix c =
      let doomed = keep_if (λ e. starts_with e.0 prefix) c.store in
      let kept = keep_if (λ e. not (starts_with e.0 prefix)) c.store in
      (length doomed, record c { store = kept })

  unfoldable pub clear : TtlCache V → TtlCache V
  clear c = record c { store = [] }

  unfoldable pub stats : TtlCache V → Stats
  stats c = record {
    entries = length c.store;
    max_entries = c.max_entries;
    hits = c.hits;
    misses = c.misses;
  }
