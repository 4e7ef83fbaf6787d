-- ===== src/Cache/Lookup.antt =====
-- What a caller of app/utils/cache.py sees of the entries: round trips, expiry, invalidation.
use inventory_logix_dashboar.Base.{
  ℕ, ap, ◌+◌, ◌≤◌, ◌<◌, String, ◌≡◌, ◌≢◌, ◌↔◌, refl, Bool, not, Option, none, some, [], ◌∷◌, ◌++◌,
  arith, inl, inr, Option-cases, Bool-cases, ◌∙◌, leb, length, keep_if, eq_iff, length-append,
  if◌then◌else◌,
}
use text.Mathlib.Text.{starts_with}
use mathlib.Core.List.{append_assoc}
use inventory_logix_dashboar.Base.Dict.{
  OrderedDict, lookup, remove, lookup-remove, lookup-append, lookup-snoc, move_to_end,
}
use inventory_logix_dashboar.Cache.Eviction.{store-set, placed}
use inventory_logix_dashboar.Cache.{
  Entry, TtlCache, get, set, evict, lifetime, look_first, get_or_set, invalidate,
}

module _ {ℓ} {V : Type ℓ} where
  -- The last entry survives an eviction to one entry or more.
  lookup-evict_last :
      (m : ℕ) (k : String) (e : Entry V) (s : OrderedDict (Entry V))
      → 1 ≤ m
      → lookup k s ≡ none
      → lookup k (evict m (s ++ (k, e) ∷ [])) ≡ some e
  unfolding evict lookup
  lookup-evict_last m k e [] fits absent = ground (arith, eq_iff k k)
  lookup-evict_last m k e (x ∷ s) fits absent =
      ground (arith, lookup-evict_last m k e s fits, lookup-append k s ((k, e) ∷ []), eq_iff k k)

  -- With room for every entry nothing is evicted.
  evict_fits : (m : ℕ) (s : OrderedDict (Entry V)) → length s ≤ m → evict m s ≡ s
  unfolding evict
  evict_fits m [] h = refl
  evict_fits m (x ∷ s) h = ground arith

  removed : (k : String) (s : OrderedDict (Entry V)) → lookup k (remove k s) ≡ none
  removed k s = ground (arith, lookup-remove k k s, eq_iff k k)

  -- `set` stores an entry that lasts for its lifetime.
  pub lookup-set_self :
      (k : String) (v : V) (ttl : Option ℕ) (now : ℕ) (c : TtlCache V)
      → 1 ≤ c.max_entries
      → lookup k (set k v ttl now c).store
        ≡ some (record { expiry = now + lifetime ttl c; value = v })
  lookup-set_self k v ttl now c room =
      rw store-set (lookup-evict_last c.max_entries k _ (remove k c.store) room (removed k c.store))

  -- What `set` stored is returned by `get` until the entry's lifetime has passed, whatever the
  -- store held before, in a cache with room for one entry.
  pub get-set_self :
      (k : String) (v : V) (ttl : Option ℕ) (now later : ℕ) (c : TtlCache V)
      → 1 ≤ c.max_entries
      → later < now + lifetime ttl c
      → (get k later (set k v ttl now c)).0 ≡ some v
  unfolding get
  get-set_self k v ttl now later c room live =
      rw (lookup-set_self k v ttl now c room) (ground arith)

  lookup-placed_ne :
      (k j : String) (v : V) (ttl : Option ℕ) (now : ℕ) (c : TtlCache V)
      → k ≢ j
      → lookup j (placed k v ttl now c) ≡ lookup j c.store
  lookup-placed_ne k j v ttl now c ne =
      rw lookup-snoc (ground (arith, eq_iff k j, lookup-remove k j c.store))

  length-placed :
      (k : String) (v : V) (ttl : Option ℕ) (now : ℕ) (c : TtlCache V)
      → length (placed k v ttl now c) ≡ length (remove k c.store) + 1
  length-placed k v ttl now c = rw length-append

  -- Setting a key changes no other key's entry while the store has room for one more.
  pub get-set_ne :
      (k j : String) (v : V) (ttl : Option ℕ) (now later : ℕ) (c : TtlCache V)
      → k ≢ j
      → length (remove k c.store) + 1 ≤ c.max_entries
      → (get j later (set k v ttl now c)).0 ≡ (get j later c).0
  unfolding get
  get-set_ne k j v ttl now later c ne room =
      let fits : length (placed k v ttl now c) ≤ c.max_entries =
        omega (arith, length-placed k v ttl now c) in
      let same : lookup j (set k v ttl now c).store ≡ lookup j c.store =
        rw (store-set, evict_fits c.max_entries (placed k v ttl now c) fits)
          (lookup-placed_ne k j v ttl now c ne) in
      rw same (ground arith)

  -- The entry that `get` may return: stored, with this value, and not expired.
  abbrev pub Live : String → ℕ → TtlCache V → V → Type ℓ
  Live k now c v = (e : Entry V) × (lookup k c.store ≡ some e) × (e.value ≡ v) × (now < e.expiry)

  get-Live :
      (k : String) (now : ℕ) (c : TtlCache V) (v : V) → (get k now c).0 ≡ some v → Live k now c v
  unfolding get
  get-Live k now c v h = elim (Option-cases (lookup k c.store)) [
    | inl absent ↦ ground arith
    | inr (e, found) ↦ (e, found, ground arith, ground arith)
  ]

  Live-get :
      (k : String) (now : ℕ) (c : TtlCache V) (v : V) → Live k now c v → (get k now c).0 ≡ some v
  unfolding get
  Live-get k now c v (e, found, same, live) = rw found (ground arith)

  -- `get` returns a value exactly when the store has an unexpired entry with it.
  pub get-eq-some_iff :
      (k : String) (now : ℕ) (c : TtlCache V) (v : V) → ((get k now c).0 ≡ some v) ↔ Live k now c v
  get-eq-some_iff k now c v = (get-Live k now c v, Live-get k now c v)

  -- A live entry is returned by `get_or_set` whatever the producer is, and nothing is stored.
  pub get_or_set_hit :
      (k : String) (v : V) (producer : Option V) (now again stored : ℕ) (c : TtlCache V)
      → Live k now c v
      → get_or_set k producer now again stored c ≡ get k now c
  unfolding get_or_set
  get_or_set_hit k v producer now again stored c (e, found, same, live) = rw found (ground arith)

  -- A look that finds nothing leaves room for what is stored next, counts a miss and keeps the lifetime.
  missed :
      (k : String) (now : ℕ) (c : TtlCache V)
      → (get k now c).0 ≡ none
      → ((get k now c).1.max_entries ≡ c.max_entries)
        × (((get k now c).1.ttl ≡ c.ttl)
            × (((get k now c).1.misses ≡ c.misses + 1) × (lookup k (get k now c).1.store ≡ none)))
  unfolding get
  missed k now c h = elim (Option-cases (lookup k c.store)) [
    | inl absent ↦ rw absent (refl, (refl, (refl, absent)))
    | inr (e, found) ↦ elim (Bool-cases (leb e.expiry now)) [
      | inl expired ↦ rw (found, expired) (refl, (refl, (refl, removed k c.store)))
      | inr live ↦ cc (rw (found, live) at h)
    ]
  ]

  absent_get :
      (k : String) (now : ℕ) (c : TtlCache V)
      → lookup k c.store ≡ none
      → get k now c ≡ (none, record c { misses = c.misses + 1 })
  unfolding get
  absent_get k now c h = rw h refl

  -- On a miss, where the key is absent or its entry has expired, and in a cache with room for one entry,
  -- the producer's value is returned and stored for the cache's own lifetime, within which `get` answers
  -- it; two misses are counted, one for each look.
  pub get_or_set_miss :
      (k : String) (v : V) (now again stored later : ℕ) (c : TtlCache V)
      → (get k now c).0 ≡ none
      → 1 ≤ c.max_entries
      → later < stored + c.ttl
      → let (answer, after) = get_or_set k (some v) now again stored c in
        (answer ≡ some v) × ((get k later after).0 ≡ some v) × (after.misses ≡ c.misses + 2)
  unfolding get_or_set set
  get_or_set_miss k v now again stored later c none_yet room live =
      after_first (get k now c) none_yet (missed k now c none_yet)
    where
      Same : TtlCache V → Type ℓ
      Same d =
          (d.max_entries ≡ c.max_entries)
          × ((d.ttl ≡ c.ttl) × ((d.misses ≡ c.misses + 1) × (lookup k d.store ≡ none)))

      after_first :
          (r : Option V × TtlCache V)
          → r.0 ≡ none
          → Same r.1
          → let (answer, after) = look_first r (some v) k again stored in
            (answer ≡ some v) × ((get k later after).0 ≡ some v) × (after.misses ≡ c.misses + 2)
      after_first (some w, d) h same = cc
      after_first (none, d) h (entries, (lasts, (count, gone))) =
          let looked : TtlCache V = record d { misses = d.misses + 1 } in
          rw (absent_get k again d gone) (
            refl,
            get-set_self k v none stored later looked (rw entries room) (rw lasts live),
            omega (arith, count),
          )

  -- For an absent key, a producer that raises leaves the store as it was.
  pub get_or_set_raises :
      (k : String) (now again stored : ℕ) (c : TtlCache V)
      → lookup k c.store ≡ none
      → let (answer, after) = get_or_set k none now again stored c in
        (answer ≡ none) × (after.store ≡ c.store)
  unfolding get_or_set
  get_or_set_raises k now again stored c absent = rw absent (rw absent (refl, refl))

  lookup-kept :
      (prefix j : String) (s : OrderedDict (Entry V))
      → lookup j (keep_if (λ e. not (starts_with e.0 prefix)) s)
        ≡ (if starts_with j prefix then none else lookup j s)
  unfolding lookup keep_if
  lookup-kept prefix j [] = ground arith
  lookup-kept prefix j (e ∷ s) =
      ground
        (arith, eq_iff e.0 j, lookup-kept prefix j s, ap (λ (x : String). starts_with x prefix))

  length_parts :
      (p : String × Entry V → Bool) (s : OrderedDict (Entry V))
      → length (keep_if p s) + length (keep_if (λ e. not (p e)) s) ≡ length s
  unfolding keep_if
  length_parts p [] = omega arith
  length_parts p (e ∷ s) = ground (arith, length_parts p s)

  -- `invalidate` drops exactly the keys with the prefix, and returns how many it dropped.
  pub lookup-invalidate :
      (prefix j : String) (c : TtlCache V)
      → (lookup j (invalidate prefix c).1.store
          ≡ (if starts_with j prefix then none else lookup j c.store))
        × ((invalidate prefix c).0 + length (invalidate prefix c).1.store ≡ length c.store)
  unfolding invalidate
  lookup-invalidate prefix j c = (lookup-kept prefix j c.store, length_parts _ c.store)

  -- The last entry but one survives an eviction to two entries or more.
  lookup-evict_two :
      (m : ℕ) (k : String) (e : Entry V) (x : String × Entry V) (s : OrderedDict (Entry V))
      → 2 ≤ m
      → lookup k s ≡ none
      → lookup k (evict m (s ++ (k, e) ∷ x ∷ [])) ≡ some e
  unfolding evict lookup
  lookup-evict_two m k e x [] fits absent = ground (arith, eq_iff k k)
  lookup-evict_two m k e x (y ∷ s) fits absent =
      ground
        (arith, lookup-evict_two m k e x s fits, lookup-append k s ((k, e) ∷ x ∷ []), eq_iff k k)

  remove-snoc :
      (j k : String) (e : Entry V) (s : OrderedDict (Entry V))
      → j ≢ k
      → remove j (s ++ (k, e) ∷ []) ≡ remove j s ++ (k, e) ∷ []
  unfolding remove
  remove-snoc j k e [] ne = ground (arith, eq_iff k j)
  remove-snoc j k e (x ∷ s) ne = ground (arith, remove-snoc j k e s ne)

  -- Reading a live entry moves it to the end.
  store-get :
      (k : String) (now : ℕ) (c : TtlCache V) (v : V)
      → (get k now c).0 ≡ some v
      → (e : Entry V) × ((lookup k c.store ≡ some e)
          × (((get k now c).1.store ≡ remove k c.store ++ (k, e) ∷ [])
              × ((get k now c).1.max_entries ≡ c.max_entries)))
  unfolding get move_to_end
  store-get k now c v h = elim (Option-cases (lookup k c.store)) [
    | inl absent ↦ cc (rw absent at h)
    | inr (e, found) ↦ elim (Bool-cases (leb e.expiry now)) [
      | inl expired ↦ cc (rw (found, expired) at h)
      | inr live ↦ (e, (found, (rw (found, live, found) refl, rw (found, live) refl)))
    ]
  ]

  -- A key that was just read is not the one that makes room: in a cache with room for two entries, after
  -- another key is set, however full the cache is, it is served at any time as it would have been
  -- before, until its own lifetime is over.
  pub get-set_read :
      (k j : String) (v w : V) (ttl : Option ℕ) (now later : ℕ) (c : TtlCache V)
      → (get k now c).0 ≡ some v
      → j ≢ k
      → 2 ≤ c.max_entries
      → (get k later (set j w ttl now (get k now c).1)).0 ≡ (get k later c).0
  unfolding get
  get-set_read k j v w ttl now later c served ne room =
      let (e, (found, (order, entries))) = store-get k now c v served in
      let read : TtlCache V = (get k now c).1 in
      let new : Entry V = record { expiry = now + lifetime ttl read; value = w } in
      let gone : lookup k (remove j (remove k c.store)) ≡ none =
        ground (arith, lookup-remove j k (remove k c.store), removed k c.store) in
      let kept : lookup k (set j w ttl now read).store ≡ some e =
        ap (lookup k) (store-set j w ttl now read)
        ∙ ap (λ s. lookup k (evict read.max_entries (remove j s ++ (j, new) ∷ []))) order
        ∙ ap (λ s. lookup k (evict read.max_entries (s ++ (j, new) ∷ [])))
            (remove-snoc j k e (remove k c.store) ne)
        ∙ ap (λ s. lookup k (evict read.max_entries s))
            (append_assoc (remove j (remove k c.store)) ((k, e) ∷ []) ((j, new) ∷ []))
        ∙ lookup-evict_two read.max_entries k e (j, new) (remove j (remove k c.store))
            (rw entries room) gone in
      rw (kept, found) (ground arith)
