-- ===== src/Cache/Bounds.antt =====
-- The keys and the size of the store of app/utils/cache.py, under every method.
use inventory_logix_dashboar.Base.{
  ℕ, ◌≤◌, String, ◌≡◌, Bool, not, Option, none, some, List, [], ◌∷◌, ◌++◌, arith, leb, inl, inr,
  Bool-cases, Option-cases, length, keep_if, eq_iff, length-append, length-keep_if-le,
}
use text.Mathlib.Text.{starts_with}
use inventory_logix_dashboar.Base.Dict.{
  OrderedDict, lookup, remove, move_to_end, IsUnique, lookup-remove, remove-IsUnique, snoc-IsUnique,
}
use inventory_logix_dashboar.Cache.{
  Entry, TtlCache, new, get, set, get_or_set, invalidate, clear, look_again, produce,
}
use inventory_logix_dashboar.Cache.Eviction.{
  length-evict-le, evict-IsUnique, length-remove-le, length-remove_found, placed, store-set,
}
use inventory_logix_dashboar.Cache.Calls.{
  Call, perform, perform_all, call_get, call_set, call_get_or_set, call_invalidate, call_clear,
}

module _ {ℓ} {V : Type ℓ} where
  -- What holds of a cache between two calls.
  pub record IsValid (c : TtlCache V) : Type ℓ where
    pub unique : IsUnique c.store
    pub within : length c.store ≤ c.max_entries

  placed-IsUnique :
      (key : String) (value : V) (ttl : Option ℕ) (now : ℕ) (c : TtlCache V)
      → IsUnique c.store
      → IsUnique (placed key value ttl now c)
  placed-IsUnique key value ttl now c h =
      snoc-IsUnique key _ (remove key c.store)
        (ground (arith, lookup-remove key key c.store, eq_iff key key))
        (remove-IsUnique key c.store h)

  set_within :
      (key : String) (value : V) (ttl : Option ℕ) (now : ℕ) (c : TtlCache V)
      → length (set key value ttl now c).store ≤ (set key value ttl now c).max_entries
  unfolding set
  set_within key value ttl now c = length-evict-le c.max_entries _

  set-IsValid :
      (key : String) (value : V) (ttl : Option ℕ) (now : ℕ) (c : TtlCache V)
      → IsValid c
      → IsValid (set key value ttl now c)
  set-IsValid key value ttl now c h = record {
    unique =
        rw store-set
          (evict-IsUnique c.max_entries _ (placed-IsUnique key value ttl now c h.unique));
    within = set_within key value ttl now c;
  }

  found_removed :
      (key : String) (s : OrderedDict (Entry V)) (e : Entry V)
      → lookup key s ≡ some e
      → length (remove key s ++ (key, e) ∷ []) ≤ length s
  found_removed key s e h =
      omega (arith, length-append {ℓ} (remove key s) ((key, e) ∷ []), length-remove_found key s e h)

  moved-IsUnique :
      (key : String) (s : OrderedDict (Entry V)) (e : Entry V)
      → IsUnique s
      → IsUnique (remove key s ++ (key, e) ∷ [])
  moved-IsUnique key s e h =
      snoc-IsUnique key e (remove key s) (ground (arith, lookup-remove key key s, eq_iff key key))
        (remove-IsUnique key s h)

  get-IsValid : (key : String) (now : ℕ) (c : TtlCache V) → IsValid c → IsValid (get key now c).1
  unfolding get move_to_end
  get-IsValid key now c h = elim (Option-cases (lookup key c.store)) [
    | inl absent ↦ rw absent (record { unique = h.unique; within = h.within })
    | inr (e, found) ↦ elim (Bool-cases (leb e.expiry now)) [
      | inl dead ↦
          rw (found, dead)
            (record {
              unique = remove-IsUnique key c.store h.unique;
              within = omega (arith, length-remove-le key c.store, h.within);
            })
      | inr live ↦
          rw (found, live, found)
            (record {
              unique = moved-IsUnique key c.store e h.unique;
              within = omega (arith, found_removed key c.store e found, h.within);
            })
    ]
  ]

  look_again-IsValid :
      (key : String) (producer : Option V) (again stored : ℕ) (c : TtlCache V)
      → IsValid c
      → IsValid (look_again (get key again c) producer key stored).1
  unfolding look_again produce
  look_again-IsValid key none again stored c h = ground (arith, get-IsValid key again c h)
  look_again-IsValid key (some v) again stored c h =
      let (found, after) = get key again c in
      ground (arith, get-IsValid key again c h, set-IsValid key v none stored (get key again c).1)

  get_or_set-IsValid :
      (key : String) (producer : Option V) (now again stored : ℕ) (c : TtlCache V)
      → IsValid c
      → IsValid (get_or_set key producer now again stored c).1
  unfolding get_or_set
  get_or_set-IsValid key producer now again stored c h = ground (
    arith,
    get-IsValid key now c h,
    look_again-IsValid key producer again stored (get key now c).1,
  )

  lookup-keep_if_absent :
      (p : String × Entry V → Bool) (k : String) (s : OrderedDict (Entry V))
      → lookup k s ≡ none
      → lookup k (keep_if p s) ≡ none
  unfolding lookup keep_if
  lookup-keep_if_absent p k [] h = h
  lookup-keep_if_absent p k (e ∷ s) h = ground (arith, lookup-keep_if_absent p k s)

  keep_if-IsUnique :
      (p : String × Entry V → Bool) (s : OrderedDict (Entry V))
      → IsUnique s
      → IsUnique (keep_if p s)
  unfolding keep_if
  keep_if-IsUnique p [] h = tt
  keep_if-IsUnique p (e ∷ s) h =
      ground (arith, keep_if-IsUnique p s h.1, lookup-keep_if_absent p e.0 s h.0)

  invalidate-IsValid :
      (prefix : String) (c : TtlCache V) → IsValid c → IsValid (invalidate prefix c).1
  unfolding invalidate
  invalidate-IsValid prefix c h = record {
    unique = keep_if-IsUnique _ c.store h.unique;
    within = omega (
      arith,
      length-keep_if-le {ℓ} (λ (e : String × Entry V). not (starts_with e.0 prefix)) c.store,
      h.within,
    );
  }

  perform-IsValid : (call : Call V) (c : TtlCache V) → IsValid c → IsValid (perform call c)
  unfolding perform clear
  perform-IsValid (call_get key now) c h = get-IsValid key now c h
  perform-IsValid (call_set key value ttl now) c h = set-IsValid key value ttl now c h
  perform-IsValid (call_get_or_set key producer now again stored) c h =
      get_or_set-IsValid key producer now again stored c h
  perform-IsValid (call_invalidate prefix) c h = invalidate-IsValid prefix c h
  perform-IsValid call_clear c h = record { unique = tt; within = omega arith }

  perform_all-IsValid :
      (calls : List (Call V)) (c : TtlCache V) → IsValid c → IsValid (perform_all calls c)
  unfolding perform_all
  perform_all-IsValid [] c h = h
  perform_all-IsValid (call ∷ calls) c h =
      perform_all-IsValid calls (perform call c) (perform-IsValid call c h)

  -- A new cache, after any calls of its methods at any times: no key stands twice in the store,
  -- and the store holds at most `max_entries` entries.
  pub perform_all-new-IsValid :
      (ttl max_entries : ℕ) (calls : List (Call V))
      → IsValid (perform_all calls (new ttl max_entries))
  unfolding new
  perform_all-new-IsValid ttl max_entries calls =
      perform_all-IsValid calls _ (record { unique = tt; within = omega arith })
