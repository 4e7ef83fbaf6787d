-- ===== src/SystemConfig/Proper.antt =====
-- What is in the table after any requests to the pages, and what the list page shows of it.
use inventory_logix_dashboar.Base.{
  ℕ, String, ◌≡◌, refl, sym, Bool, true, not, Option, none, some, List, [], ◌∷◌, str_eq, eq_iff,
  if◌then◌else◌, any_of, keep_if, is_some, map, Bool-cases, Option-cases, inl, inr, All, All-append,
  All-update_where,
}
use inventory_logix_dashboar.Base.Dict.{lookup}
use inventory_logix_dashboar.Base.Text.{strip, lower}
use inventory_logix_dashboar.SystemConfig.{
  Override, Shown, boolean_words, is_sensitive_key, is_live, has_key, shown, get_by_key, get_all,
  insert_sorted, order_by_key, validate_key, validate_value, rewritten, new_override,
  marked_deleted, store_override, set_override, delete_override, unless_refused, create, edit,
}
use inventory_logix_dashboar.SystemConfig.History.{
  Action, creates, edits, deletes, perform, perform_all, is_accepted,
}

-- A stored row: under the allowed key the value is a Boolean word, and the flag is the key's. Rows with
-- other keys, which the pages do not make, may have any value.
abbrev pub IsProper : Override → Type 0
IsProper row =
    (str_eq "RUN_ETL_ON_STARTUP" row.key ≡ true → is_accepted row.key row.value ≡ true)
    × (row.is_sensitive ≡ is_sensitive_key row.key)

abbrev pub AllProper : List Override → Type 0
AllProper rows = All IsProper rows

-- An entry of the list page: a row that is not deleted, under the allowed key with a Boolean word, and
-- masked exactly if its key is sensitive.
abbrev pub IsListed : Shown → Type 0
IsListed entry =
    (str_eq "RUN_ETL_ON_STARTUP" entry.row.key ≡ true
      → is_accepted entry.row.key entry.row.value ≡ true)
    × (entry.row.deleted_at ≡ none)
    × (entry.is_sensitive ≡ entry.row.is_sensitive)
    × (entry.display_value
        ≡ (if is_sensitive_key entry.row.key then "********" else entry.row.value))

store_override-AllProper :
    (key value description : String) (user : ℕ) (rows : List Override)
    → is_accepted key value ≡ true
    → AllProper rows
    → AllProper (store_override key value description user rows)
unfolding store_override new_override rewritten has_key
store_override-AllProper key value description user rows accepted all =
    elim (Bool-cases (any_of (has_key key) rows)) [
      | inl known ↦ rw known (
          All-update_where IsProper (has_key key) (rewritten value description user) rows
            (λ row same proper. (rw ((eq_iff row.key key).0 same) (λ _. accepted), refl)) all)
      | inr fresh ↦ rw fresh (All-append IsProper rows _ all (((λ _. accepted), refl), tt))
    ]

create-AllProper :
    (key value description : String) (user : ℕ) (rows : List Override)
    → AllProper rows
    → AllProper (create key value description (some user) rows).1
unfolding create unless_refused set_override validate_key validate_value lookup
create-AllProper key value description user rows all = elim (Bool-cases (str_eq (strip key) "")) [
  | inl empty ↦ rw empty all
  | inr named ↦ elim (Bool-cases (str_eq "RUN_ETL_ON_STARTUP" (strip key))) [
    | inr other ↦ rw (named, other) all
    | inl allowed ↦ elim (Bool-cases (any_of (str_eq (lower (strip value))) boolean_words)) [
      | inr odd ↦ rw (named, allowed, odd) all
      | inl boolean ↦
          rw (named, allowed, boolean)
            (store_override-AllProper (strip key) (strip value) (strip description) user rows
              (rw (allowed, boolean) refl) all)
    ]
  ]
]

edit-AllProper :
    (key value description : String) (user : ℕ) (rows : List Override)
    → AllProper rows
    → AllProper (edit key value description (some user) rows).1
unfolding edit unless_refused set_override validate_value lookup
edit-AllProper key value description user rows all = elim (Option-cases (get_by_key key rows)) [
  | inl missing ↦ rw missing all
  | inr (found, there) ↦ elim (Bool-cases (str_eq "RUN_ETL_ON_STARTUP" key)) [
    | inr other ↦ rw (there, other) all
    | inl allowed ↦ elim (Bool-cases (any_of (str_eq (lower (strip value))) boolean_words)) [
      | inr odd ↦ rw (there, allowed, odd) all
      | inl boolean ↦
          rw (there, allowed, boolean)
            (store_override-AllProper key (strip value) (strip description) user rows
              (rw (allowed, boolean) refl) all)
    ]
  ]
]

perform_all-AllProper :
    (actions : List Action) (rows : List Override)
    → AllProper rows
    → AllProper (perform_all actions rows)
unfolding perform_all perform delete_override marked_deleted
perform_all-AllProper [] rows all = all
perform_all-AllProper (creates key value description user ∷ actions) rows all =
    perform_all-AllProper actions _ (create-AllProper key value description user rows all)
perform_all-AllProper (edits key value description user ∷ actions) rows all =
    perform_all-AllProper actions _ (edit-AllProper key value description user rows all)
perform_all-AllProper (deletes key user now ∷ actions) rows all =
    perform_all-AllProper actions _ (
      All-update_where IsProper (has_key key) (marked_deleted now) rows (λ row _ proper. proper)
        all)

-- A proper row that is not deleted.
abbrev IsLive : Override → Type 0
IsLive row = IsProper row × (row.deleted_at ≡ none)

not_deleted : (o : Option ℕ) → not (is_some o) ≡ true → o ≡ none
not_deleted none h = refl
not_deleted (some n) h = cc

keep_if-IsLive : (rows : List Override) → AllProper rows → All IsLive (keep_if is_live rows)
unfolding keep_if is_live
keep_if-IsLive [] all = tt
keep_if-IsLive (row ∷ rows) all = elim (Bool-cases (is_live row)) [
  | inl live ↦ rw live ((all.0, not_deleted row.deleted_at live), keep_if-IsLive rows all.1)
  | inr gone ↦ rw gone (keep_if-IsLive rows all.1)
]

insert_sorted-IsLive :
    (before : String → String → Bool) (row : Override) (rows : List Override)
    → IsLive row
    → All IsLive rows
    → All IsLive (insert_sorted before row rows)
unfolding insert_sorted
insert_sorted-IsLive before row [] h all = (h, tt)
insert_sorted-IsLive before row (first ∷ rows) h all =
    elim (Bool-cases (before row.key first.key)) [
      | inl here ↦ rw here (h, all)
      | inr later ↦ rw later (all.0, insert_sorted-IsLive before row rows h all.1)
    ]

order_by_key-IsLive :
    (before : String → String → Bool) (rows : List Override)
    → All IsLive rows
    → All IsLive (order_by_key before rows)
unfolding order_by_key
order_by_key-IsLive before [] all = tt
order_by_key-IsLive before (row ∷ rows) all =
    insert_sorted-IsLive before row _ all.0 (order_by_key-IsLive before rows all.1)

map-shown : (rows : List Override) → All IsLive rows → All IsListed (map shown rows)
unfolding shown
map-shown [] all = tt
map-shown (row ∷ rows) all = ((all.0.0.0, all.0.1, sym all.0.0.1, refl), map-shown rows all.1)

-- Where every row has the flag of its key, and under the allowed key a Boolean word, the list page
-- shows after any requests of admins only rows that are not deleted; it masks the value exactly if the
-- row's key is a sensitive one, also a key that the pages do not make, and under the allowed key there is
-- a Boolean word.
pub get_all-perform_all :
    (before : String → String → Bool) (actions : List Action) (rows : List Override)
    → AllProper rows
    → All IsListed (get_all before (perform_all actions rows))
unfolding get_all
get_all-perform_all before actions rows all =
    map-shown _
      (order_by_key-IsLive before _ (keep_if-IsLive _ (perform_all-AllProper actions rows all)))
