-- ===== src/Settings/Merge.antt =====
-- app/services/settings_service.py: what the merged dictionaries answer for a key.
use inventory_logix_dashboar.Base.{
  ◌≡◌, refl, ap, inl, inr, String, Bool, true, Option, none, some, [], ◌∷◌, arith, str_eq, eq_iff,
  if◌then◌else◌, keep_if, Bool-cases,
}
use inventory_logix_dashboar.Base.Dict.{
  OrderedDict, lookup, assign, IsUnique, or_else, lookup-assign,
}
use inventory_logix_dashboar.Settings.{
  is_known, update_dict, known_only, cleaned, validate, merged, defaults,
}

lookup-keep_if :
    (p : String → Bool) (k : String) (d : OrderedDict String)
    → lookup k (keep_if (λ (e : String × String). p e.0) d) ≡ (if p k then lookup k d else none)
unfolding lookup keep_if
lookup-keep_if p k [] = ground arith
lookup-keep_if p k ((j, v) ∷ d) = elim (Bool-cases (str_eq j k)) [
  | inl same ↦ let e : j ≡ k = (eq_iff j k).0 same in ground (arith, lookup-keep_if p k d, ap p e)
  | inr other ↦ ground (arith, lookup-keep_if p k d)
]

pub lookup-update_dict :
    (k : String) (d s : OrderedDict String)
    → IsUnique s
    → lookup k (update_dict d s) ≡ or_else (lookup k s) (lookup k d)
unfolding lookup update_dict
lookup-update_dict k d [] u = refl
lookup-update_dict k d ((j, v) ∷ s) u = elim (Bool-cases (str_eq j k)) [
  | inl same ↦
      let e : j ≡ k = (eq_iff j k).0 same in
      let absent : lookup k s ≡ none = rw (← e) u.0 in
      ground (arith, lookup-update_dict k (assign j v d) s u.1, lookup-assign j k v d)
  | inr other ↦ ground (arith, lookup-update_dict k (assign j v d) s u.1, lookup-assign j k v d)
]

keep_if-IsUnique :
    (p : String → Bool) (d : OrderedDict String)
    → IsUnique d
    → IsUnique (keep_if (λ (e : String × String). p e.0) d)
unfolding keep_if
keep_if-IsUnique p [] u = tt
keep_if-IsUnique p ((j, v) ∷ d) u = ground (arith, lookup-keep_if p j d, keep_if-IsUnique p d u.1)

assign-IsUnique : (k v : String) (d : OrderedDict String) → IsUnique d → IsUnique (assign k v d)
unfolding lookup assign
assign-IsUnique k v [] u = (refl, tt)
assign-IsUnique k v ((j, w) ∷ d) u =
    ground (arith, eq_iff j k, eq_iff k j, lookup-assign k j v d, assign-IsUnique k v d u.1)

pub update_dict-IsUnique : (d s : OrderedDict String) → IsUnique d → IsUnique (update_dict d s)
unfolding update_dict
update_dict-IsUnique d [] u = u
update_dict-IsUnique d ((k, v) ∷ s) u =
    update_dict-IsUnique (assign k v d) s (assign-IsUnique k v d u)

-- For a known key the merged settings answer what is stored, or else the default.
pub lookup-merged :
    (k : String) (stored : OrderedDict String)
    → is_known k ≡ true
    → IsUnique stored
    → lookup k (merged stored) ≡ or_else (lookup k stored) (lookup k defaults)
unfolding merged known_only
lookup-merged k stored known u = rw (
  lookup-update_dict k defaults (keep_if (λ (e : String × String). is_known e.0) stored)
      (keep_if-IsUnique is_known stored u),
  lookup-keep_if is_known k stored,
  known,
)

abbrev pub validated : String → Option String → Option String
validated k none = none
validated k (some raw) = some (validate k raw)

-- What is cleaned for a known key is its validated value.
pub lookup-cleaned :
    (k : String) (values : OrderedDict String)
    → is_known k ≡ true
    → lookup k (cleaned values) ≡ validated k (lookup k values)
unfolding lookup cleaned
lookup-cleaned k [] known = refl
lookup-cleaned k ((j, raw) ∷ values) known = elim (Bool-cases (str_eq j k)) [
  | inl same ↦ let e : j ≡ k = (eq_iff j k).0 same in rw (e, known, (eq_iff k k).1 refl)
  | inr other ↦ ground (arith, lookup-cleaned k values known)
]

cleaned_absent :
    (k : String) (values : OrderedDict String)
    → lookup k values ≡ none
    → lookup k (cleaned values) ≡ none
unfolding lookup cleaned
cleaned_absent k [] h = refl
cleaned_absent k ((j, raw) ∷ values) h = ground (arith, cleaned_absent k values)

pub cleaned-IsUnique : (values : OrderedDict String) → IsUnique values → IsUnique (cleaned values)
unfolding cleaned
cleaned-IsUnique [] u = tt
cleaned-IsUnique ((j, raw) ∷ values) u =
    ground (arith, cleaned_absent j values u.0, cleaned-IsUnique values u.1)
