-- ===== src/Cache/Eviction.antt =====
-- What app/utils/cache.py drops from a full store.
use inventory_logix_dashboar.Base.{
  ℕ, suc, ◌+◌, ◌-◌, ◌≤◌, String, ◌≡◌, Option, some, [], ◌∷◌, ◌++◌, arith, ltb, inl, inr, Bool-cases,
  tests, length, drop,
}
use inventory_logix_dashboar.Base.Dict.{OrderedDict, lookup, remove, IsUnique, move_to_end-assign}
use inventory_logix_dashboar.Cache.{Entry, TtlCache, set, evict, lifetime}

module _ {ℓ} {V : Type ℓ} where
  pub length-evict-le : (m : ℕ) (s : OrderedDict (Entry V)) → length (evict m s) ≤ m
  unfolding evict
  length-evict-le m [] = omega arith
  length-evict-le m (e ∷ s) = ground (arith, length-evict-le m s)

  -- Eviction drops as many of the oldest entries as there are too many.
  pub evict-drop : (m : ℕ) (s : OrderedDict (Entry V)) → evict m s ≡ drop (length s - m) s
  unfolding evict
  evict-drop m [] = let none_over : 0 - m ≡ 0 = omega arith in rw none_over
  evict-drop m (e ∷ s) = elim (Bool-cases (ltb m (length (e ∷ s)))) [
    | inl over ↦
        let one_more : suc (length s) - m ≡ suc (length s - m) = omega tests in
        rw (over, one_more) (evict-drop m s)
    | inr fits ↦ let none_over : suc (length s) - m ≡ 0 = ground arith in rw (fits, none_over)
  ]

  pub evict-IsUnique : (m : ℕ) (s : OrderedDict (Entry V)) → IsUnique s → IsUnique (evict m s)
  unfolding evict
  evict-IsUnique m [] h = tt
  evict-IsUnique m (e ∷ s) h = ground (arith, evict-IsUnique m s h.1)

  pub length-remove-le : (k : String) (s : OrderedDict (Entry V)) → length (remove k s) ≤ length s
  unfolding remove
  length-remove-le k [] = omega arith
  length-remove-le k (e ∷ s) = ground (arith, length-remove-le k s)

  pub length-remove_found :
      (k : String) (s : OrderedDict (Entry V)) (e : Entry V)
      → lookup k s ≡ some e
      → length (remove k s) + 1 ≤ length s
  unfolding lookup remove
  length-remove_found k [] e h = cc
  length-remove_found k (x ∷ s) e h =
      ground (arith, length-remove_found k s e, length-remove-le k s)

  -- What `set` leaves in the store: the new entry last, and of the others the latest that fit.
  abbrev pub placed : String → V → Option ℕ → ℕ → TtlCache V → OrderedDict (Entry V)
  placed key value ttl now c =
      remove key c.store ++ (key, record { expiry = now + lifetime ttl c; value = value }) ∷ []

  pub store-set :
      (key : String) (value : V) (ttl : Option ℕ) (now : ℕ) (c : TtlCache V)
      → (set key value ttl now c).store ≡ evict c.max_entries (placed key value ttl now c)
  unfolding set
  store-set key value ttl now c = rw move_to_end-assign

  -- Setting a key keeps of the old entries, in their order, the latest that fit beside the new
  -- one: what it drops are the least recently used.
  pub store-set-drop :
      (key : String) (value : V) (ttl : Option ℕ) (now : ℕ) (c : TtlCache V)
      → let all = placed key value ttl now c in
        (set key value ttl now c).store ≡ drop (length all - c.max_entries) all
  store-set-drop key value ttl now c = rw store-set (evict-drop c.max_entries _)
