-- ===== src/Base/Dict.antt =====
-- Python's `OrderedDict` with text keys: an association list in the order of the entries.
use inventory_logix_dashboar.Base.{
  String, ◌≡◌, refl, Option, none, some, List, [], ◌∷◌, ◌++◌, arith, str_eq, eq_iff, if◌then◌else◌,
}

abbrev pub OrderedDict {ℓ} : Type ℓ → Type ℓ
OrderedDict V = List (String × V)

module _ {ℓ} {V : Type ℓ} where
  -- `d.get(k)`
  unfoldable pub lookup : String → OrderedDict V → Option V
  lookup k [] = none
  lookup k ((j, v) ∷ d) = if str_eq j k then some v else lookup k d

  -- `d[k] = v`: in place, or at the end if the key is new.
  unfoldable pub assign : String → V → OrderedDict V → OrderedDict V
  assign k v [] = (k, v) ∷ []
  assign k v ((j, w) ∷ d) = if str_eq j k then (k, v) ∷ d else (j, w) ∷ assign k v d

  -- `del d[k]`
  unfoldable pub remove : String → OrderedDict V → OrderedDict V
  remove k [] = []
  remove k ((j, v) ∷ d) = let rest = remove k d in if str_eq j k then rest else (j, v) ∷ rest

  move_found : Option V → String → OrderedDict V → OrderedDict V
  move_found none k d = d
  move_found (some v) k d = remove k d ++ (k, v) ∷ []

  -- `d.move_to_end(k)`, for a key that is there.
  unfoldable pub move_to_end : String → OrderedDict V → OrderedDict V
  unfolding move_found
  move_to_end k d = move_found (lookup k d) k d

  -- No key stands twice.
  abbrev pub IsUnique : OrderedDict V → Type ℓ
  IsUnique [] = Unit
  IsUnique ((k, v) ∷ d) = (lookup k d ≡ none) × IsUnique d

  pub lookup-remove :
      (k j : String) (d : OrderedDict V)
      → lookup j (remove k d) ≡ (if str_eq k j then none else lookup j d)
  unfolding lookup remove
  lookup-remove k j [] = ground arith
  lookup-remove k j ((i, v) ∷ d) =
      ground (arith, lookup-remove k j d, eq_iff i k, eq_iff i j, eq_iff k j)

  pub lookup-assign :
      (k j : String) (v : V) (d : OrderedDict V)
      → lookup j (assign k v d) ≡ (if str_eq k j then some v else lookup j d)
  unfolding lookup assign
  lookup-assign k j v [] = refl
  lookup-assign k j v ((i, w) ∷ d) =
      ground (arith, eq_iff k j, eq_iff i k, eq_iff i j, lookup-assign k j v d)

  -- The first dictionary's answer, or else the second's.
  abbrev pub or_else : Option V → Option V → Option V
  or_else none o = o
  or_else (some v) o = some v

  pub lookup-append :
      (j : String) (c d : OrderedDict V) → lookup j (c ++ d) ≡ or_else (lookup j c) (lookup j d)
  unfolding lookup
  lookup-append j [] d = refl
  lookup-append j ((i, v) ∷ c) d = ground (arith, lookup-append j c d)

  pub lookup-snoc :
      (k j : String) (v : V) (d : OrderedDict V)
      → lookup j (d ++ (k, v) ∷ []) ≡ or_else (lookup j d) (if str_eq k j then some v else none)
  unfolding lookup
  lookup-snoc k j v d = lookup-append j d ((k, v) ∷ [])

  pub remove_absent : (k : String) (d : OrderedDict V) → lookup k d ≡ none → remove k d ≡ d
  unfolding lookup remove
  remove_absent k [] h = refl
  remove_absent k ((j, v) ∷ d) h = ground (arith, remove_absent k d)

  -- What assigning and moving do together: the key's entry goes to the end.
  pub remove-assign :
      (k : String) (v : V) (d : OrderedDict V) → remove k (assign k v d) ≡ remove k d
  unfolding assign remove
  remove-assign k v [] = ground (arith, eq_iff k k)
  remove-assign k v ((j, w) ∷ d) = ground (arith, eq_iff k k, remove-assign k v d)

  pub move_to_end-assign :
      (k : String) (v : V) (d : OrderedDict V)
      → move_to_end k (assign k v d) ≡ remove k d ++ (k, v) ∷ []
  unfolding move_to_end
  move_to_end-assign k v d = ground (arith, lookup-assign k k v d, remove-assign k v d, eq_iff k k)

  pub remove-IsUnique : (k : String) (d : OrderedDict V) → IsUnique d → IsUnique (remove k d)
  unfolding remove
  remove-IsUnique k [] h = tt
  remove-IsUnique k ((j, v) ∷ d) h = ground (arith, remove-IsUnique k d h.1, lookup-remove k j d)

  pub snoc-IsUnique :
      (k : String) (v : V) (d : OrderedDict V)
      → lookup k d ≡ none
      → IsUnique d
      → IsUnique (d ++ (k, v) ∷ [])
  unfolding lookup
  snoc-IsUnique k v [] absent h = (refl, tt)
  snoc-IsUnique k v ((j, w) ∷ d) absent h =
      ground (arith, eq_iff k j, eq_iff j k, lookup-append j d ((k, v) ∷ []), snoc-IsUnique k v d)
