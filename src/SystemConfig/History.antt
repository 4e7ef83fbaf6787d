-- ===== src/SystemConfig/History.antt =====
-- The overrides as the pages leave them: a finite map from keys to values, which forgets deleted rows.
use mathlib.Core.Path.{fun_ext}
use inventory_logix_dashboar.Base.{
  ℕ, String, ◌≡◌, refl, ap, ◌∙◌, Bool, true, false, ◌&&◌, Option, none, some, List, [], ◌∷◌, ◌++◌,
  arith, str_eq, eq_iff, if◌then◌else◌, any_of, update_where, is_some, Bool-cases, Option-cases,
  inl, inr,
}
use inventory_logix_dashboar.Base.Dict.{lookup}
use inventory_logix_dashboar.Base.Text.{strip, lower}
use inventory_logix_dashboar.SystemConfig.{
  Override, Shown, boolean_words, is_live, has_key, find_live, get_by_key, validate_key,
  validate_value, rewritten, new_override, marked_deleted, store_override, set_override,
  delete_override, unless_refused, create, edit,
}

-- What a logged-in admin sends to the pages.
pub data Action : Type 0 where
  creates : String → String → String → ℕ → Action
  edits : String → String → String → ℕ → Action
  deletes : String → ℕ → ℕ → Action

unfoldable pub perform : Action → List Override → List Override
perform (creates key value description user) rows =
    (create key value description (some user) rows).1
perform (edits key value description user) rows = (edit key value description (some user) rows).1
perform (deletes key user now) rows = (delete_override key (some user) now rows).1

unfoldable pub perform_all : List Action → List Override → List Override
unfolding perform
perform_all [] rows = rows
perform_all (action ∷ actions) rows = perform_all actions (perform action rows)

abbrev value_of : Option Override → Option String
value_of none = none
value_of (some row) = some row.value

abbrev shown_value : Option Shown → Option String
shown_value none = none
shown_value (some found) = some found.row.value

-- The value of a key, as the service reads it.
abbrev pub effective : String → List Override → Option String
effective key rows = shown_value (get_by_key key rows)

-- A map from keys to values.
abbrev pub Store : Type 0
Store = String → Option String

abbrev pub put : String → Option String → Store → Store
put key o m j = if str_eq key j then o else m j

-- A value that may be stored under the key.
abbrev pub is_accepted : String → String → Bool
is_accepted key value =
    str_eq "RUN_ETL_ON_STARTUP" key && any_of (str_eq (lower value)) boolean_words

-- What an action does to the map.
abbrev pub intended : Action → Store → Store
intended (creates key value description user) m =
    if is_accepted (strip key) (strip value) then put (strip key) (some (strip value)) m else m
intended (edits key value description user) m =
    if is_some (m key) && is_accepted key (strip value) then put key (some (strip value)) m else m
intended (deletes key user now) m = put key none m

abbrev pub intended_all : List Action → Store → Store
intended_all [] m = m
intended_all (action ∷ actions) m = intended_all actions (intended action m)

effective_lem :
    (key : String) (rows : List Override) → effective key rows ≡ value_of (find_live key rows)
unfolding get_by_key
effective_lem key rows = elim (Option-cases (find_live key rows)) [
  | inl e ↦ rw e refl
  | inr (row, e) ↦ rw e refl
]

value_of-rewritten :
    (key value description : String) (user : ℕ) (j : String) (rows : List Override)
    → value_of (find_live j (update_where (has_key key) (rewritten value description user) rows))
      ≡ (if str_eq key j
          then (if any_of (has_key key) rows then some value else none)
          else value_of (find_live j rows))
unfolding find_live update_where any_of rewritten has_key is_live
value_of-rewritten key value description user j [] = ground arith
value_of-rewritten key value description user j (row ∷ rows) = ground (
  arith,
  value_of-rewritten key value description user j rows,
  eq_iff row.key key,
  eq_iff row.key j,
  eq_iff key j,
)

value_of-deleted :
    (key : String) (now : ℕ) (j : String) (rows : List Override)
    → value_of (find_live j (update_where (has_key key) (marked_deleted now) rows))
      ≡ (if str_eq key j then none else value_of (find_live j rows))
unfolding find_live update_where marked_deleted has_key is_live
value_of-deleted key now j [] = ground arith
value_of-deleted key now j (row ∷ rows) =
    ground
      (arith, value_of-deleted key now j rows, eq_iff row.key key, eq_iff row.key j, eq_iff key j)

value_of-inserted :
    (key : String) (new : Override) (j : String) (rows : List Override)
    → new.key ≡ key
    → is_live new ≡ true
    → any_of (has_key key) rows ≡ false
    → value_of (find_live j (rows ++ new ∷ []))
      ≡ (if str_eq key j then some new.value else value_of (find_live j rows))
unfolding find_live any_of has_key
value_of-inserted key new j [] e live fresh = rw (e, live) ground arith
value_of-inserted key new j (row ∷ rows) e live fresh = ground (
  arith,
  value_of-inserted key new j rows e live,
  eq_iff row.key key,
  eq_iff row.key j,
  eq_iff key j,
)

effective-store :
    (key value description : String) (user : ℕ) (rows : List Override) (j : String)
    → effective j (store_override key value description user rows)
      ≡ put key (some value) (λ i. effective i rows) j
unfolding store_override new_override is_live
effective-store key value description user rows j =
    rw (effective_lem j (store_override key value description user rows), effective_lem j rows)
      (elim (Bool-cases (any_of (has_key key) rows)) [
        | inl known ↦ rw (known, value_of-rewritten key value description user j rows, known) refl
        | inr fresh ↦
            rw
              (
                fresh,
                value_of-inserted key (new_override key value description user) j rows refl refl
                    fresh,
              )
              refl
      ])

effective-delete :
    (key : String) (user now : ℕ) (rows : List Override) (j : String)
    → effective j (delete_override key (some user) now rows).1
      ≡ put key none (λ i. effective i rows) j
unfolding delete_override
effective-delete key user now rows j =
    rw
      (
        effective_lem j (update_where (has_key key) (marked_deleted now) rows),
        effective_lem j rows,
        value_of-deleted key now j rows,
      )
      refl

empty_not_allowed : (key : String) → str_eq key "" ≡ true → str_eq "RUN_ETL_ON_STARTUP" key ≡ false
empty_not_allowed key h = rw ((eq_iff key "").0 h) refl

create-effective :
    (key value description : String) (user : ℕ) (rows : List Override) (j : String)
    → effective j (create key value description (some user) rows).1
      ≡ intended (creates key value description user) (λ i. effective i rows) j
unfolding create unless_refused set_override validate_key validate_value lookup
create-effective key value description user rows j = elim (Bool-cases (str_eq (strip key) "")) [
  | inl empty ↦ rw (empty, empty_not_allowed (strip key) empty) refl
  | inr named ↦ elim (Bool-cases (str_eq "RUN_ETL_ON_STARTUP" (strip key))) [
    | inr other ↦ rw (named, other) refl
    | inl allowed ↦ elim (Bool-cases (any_of (str_eq (lower (strip value))) boolean_words)) [
      | inr odd ↦ rw (named, allowed, odd) refl
      | inl boolean ↦
          rw (named, allowed, boolean)
            (effective-store (strip key) (strip value) (strip description) user rows j)
    ]
  ]
]

edit-effective :
    (key value description : String) (user : ℕ) (rows : List Override) (j : String)
    → effective j (edit key value description (some user) rows).1
      ≡ intended (edits key value description user) (λ i. effective i rows) j
unfolding edit unless_refused set_override validate_value lookup
edit-effective key value description user rows j = elim (Option-cases (get_by_key key rows)) [
  | inl missing ↦ rw missing refl
  | inr (found, there) ↦ elim (Bool-cases (str_eq "RUN_ETL_ON_STARTUP" key)) [
    | inr other ↦ rw (there, other) refl
    | inl allowed ↦ elim (Bool-cases (any_of (str_eq (lower (strip value))) boolean_words)) [
      | inr odd ↦ rw (there, allowed, odd) refl
      | inl boolean ↦
          rw (there, allowed, boolean)
            (effective-store key (strip value) (strip description) user rows j)
    ]
  ]
]

perform-effective :
    (action : Action) (rows : List Override)
    → Path Store (λ j. effective j (perform action rows)) (intended action (λ j. effective j rows))
unfolding perform
perform-effective (creates key value description user) rows =
    fun_ext (create-effective key value description user rows)
perform-effective (edits key value description user) rows =
    fun_ext (edit-effective key value description user rows)
perform-effective (deletes key user now) rows = fun_ext (effective-delete key user now rows)

store-effective :
    (actions : List Action) (rows : List Override)
    → Path Store
        (λ j. effective j (perform_all actions rows))
        (intended_all actions (λ j. effective j rows))
unfolding perform_all
store-effective [] rows = refl
store-effective (action ∷ actions) rows =
    store-effective actions (perform action rows)
    ∙ ap (intended_all actions) (perform-effective action rows)

-- After any requests of admins to the pages, the value that the service reads under a key is the one
-- that the same requests leave in a finite map: creating an override with an allowed key and an accepted
-- value puts the value there, editing does so if the key is there, deleting takes the key away, and
-- everything else leaves the map as it is.
pub effective-perform_all :
    (actions : List Action) (rows : List Override) (key : String)
    → effective key (perform_all actions rows) ≡ intended_all actions (λ j. effective j rows) key
effective-perform_all actions rows key = ap (λ m. m key) (store-effective actions rows)
