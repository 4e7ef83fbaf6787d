-- ===== src/Settings/Saved.antt =====
-- app/services/settings_service.py: what is saved is what the next request reads, and thresholds stay
-- within their bounds.
use inventory_logix_dashboar.Base.{
  ℕ, ◌≤◌, ◌≡◌, refl, ◌∙◌, ap, inl, inr, String, Bool, true, false, Option, none, some, [], ◌∷◌,
  arith, ◌==◌, ◌&&◌, if◌then◌else◌, Bool-cases, any_of,
}
use inventory_logix_dashboar.Base.Int.{ℤ, pos, negsuc}
use inventory_logix_dashboar.Base.Decimal.{int_of, int_of-str_of}
use inventory_logix_dashboar.Base.Text.{strip}
use inventory_logix_dashboar.Base.Dict.{OrderedDict, lookup, IsUnique, or_else}
use inventory_logix_dashboar.Cache.{TtlCache, get, invalidate}
use inventory_logix_dashboar.Cache.Busts.{get-invalidate_all}
use inventory_logix_dashboar.Settings.{
  SettingsState, defaults, is_known, clamp, int_or, validate, update_dict, merged,
  merged_or_defaults, cache_key, load, get_stored, get_settings, cleaned, save_cleaned,
  save_settings, bust,
}
use inventory_logix_dashboar.Settings.Merge.{
  lookup-update_dict, update_dict-IsUnique, lookup-merged, validated, lookup-cleaned,
  cleaned-IsUnique,
}

load_missed :
    (user now : ℕ) (reads : Bool) (r : Option (OrderedDict String) × TtlCache (OrderedDict String))
    (st : SettingsState)
    → r.0 ≡ none
    → (load user now reads r st).0 ≡ (if reads then some (st.table user) else none)
unfolding load
load_missed user now true (none, c) st h = refl
load_missed user now false (none, c) st h = refl
load_missed user now reads (some d, c) st h = cc

-- A request that has no copy yet reads the table, once the cache is bust.
get_settings-bust :
    (user now : ℕ) (reads : Bool) (st : SettingsState)
    → (get_settings none (some user) now reads (bust st)).0
      ≡ (if reads then merged (st.table user) else defaults)
unfolding get_settings get_stored bust merged_or_defaults
get_settings-bust user now reads st =
    let missed =
      load_missed user now reads (get (cache_key user) now (invalidate "" st.global_cache).1)
        (bust st) (get-invalidate_all (cache_key user) now st.global_cache) in
    ap merged_or_defaults missed ∙ either_merged reads
  where
    either_merged :
        (b : Bool)
        → merged_or_defaults (if b then some (st.table user) else none)
          ≡ (if b then merged (st.table user) else defaults)
    either_merged true = refl
    either_merged false = refl

load-table :
    (user now : ℕ) (reads : Bool) (r : Option (OrderedDict String) × TtlCache (OrderedDict String))
    (st : SettingsState)
    → (load user now reads r st).1.table ≡ st.table
unfolding load
load-table user now true (none, c) st = refl
load-table user now false (none, c) st = refl
load-table user now reads (some d, c) st = refl

get_settings-table :
    (g : Option (OrderedDict String)) (user now : ℕ) (reads : Bool) (st : SettingsState)
    → (get_settings g (some user) now reads st).1.table ≡ st.table
unfolding get_settings get_stored
get_settings-table (some d) user now reads st = refl
get_settings-table none user now reads st =
    load-table user now reads (get (cache_key user) now st.global_cache) st

same_either : {A : Type 0} (b : Bool) (a : A) → a ≡ (if b then a else a)
same_either true a = refl
same_either false a = refl

-- Saving changes the rows of the user by the cleaned values, and no other row.
table-save_settings :
    (g : Option (OrderedDict String)) (user id now : ℕ) (writes reads : Bool)
    (values : OrderedDict String) (st : SettingsState)
    → (save_settings g (some user) now writes reads values st).1.table id
      ≡ (if writes && id == user then update_dict (st.table id) (cleaned values) else st.table id)
unfolding save_settings
table-save_settings g user id now writes reads values st = saved writes (cleaned values)
  where
    saved :
        (b : Bool) (d : OrderedDict String)
        → (save_cleaned g user now b reads d st).1.table id
          ≡ (if b && id == user then update_dict (st.table id) d else st.table id)
    saved b [] =
        ap (λ (rows : ℕ → OrderedDict String). rows id) (get_settings-table g user now reads st)
        ∙ same_either (b && id == user) (st.table id)
    saved true (e ∷ d) = refl
    saved false (e ∷ d) = refl

clamp_bounds :
    (low high : ℕ) (z : ℤ) → low ≤ high → (low ≤ clamp low high z) × (clamp low high z ≤ high)
unfolding clamp
clamp_bounds low high (pos n) h = ground arith
clamp_bounds low high (negsuc n) h = ground arith

or_else_assoc : (a b c : Option String) → or_else (or_else a b) c ≡ or_else a (or_else b c)
or_else_assoc none b c = refl
or_else_assoc (some x) b c = refl

choose_left : {A : Type 0} {b : Bool} (x y : A) → b ≡ true → (if b then x else y) ≡ x
choose_left x y h = rw h

choose_right : {A : Type 0} {b : Bool} (x y : A) → b ≡ false → (if b then x else y) ≡ y
choose_right x y h = rw h

-- After a request has saved values, whose keys are different, and bust the cache, a later request of
-- any user that can read the table reads for every known key: the validated value, if the table could be
-- written and the user is the one that saved and gave the key; or else what was stored for the user
-- before, or the default. A later request that cannot read the table gets the default.
pub get_settings-save_settings :
    (g : Option (OrderedDict String)) (user id now later : ℕ) (writes reads readable : Bool)
    (values : OrderedDict String) (st : SettingsState) (k : String)
    → is_known k ≡ true
    → IsUnique values
    → IsUnique (st.table id)
    → lookup k
        (get_settings none
          (some id)
          later
          readable
          (bust (save_settings g (some user) now writes reads values st).1)).0
      ≡ (if readable
          then or_else
              (if writes && id == user then validated k (lookup k values) else none)
              (or_else (lookup k (st.table id)) (lookup k defaults))
          else lookup k defaults)
get_settings-save_settings g user id now later writes reads false values st k known uv ut =
    ap (lookup k)
      (get_settings-bust id later false (save_settings g (some user) now writes reads values st).1)
get_settings-save_settings g user id now later writes reads true values st k known uv ut =
    let after = (save_settings g (some user) now writes reads values st).1 in
    ap (lookup k) (get_settings-bust id later true after)
    ∙ (elim (Bool-cases (writes && id == user)) [
      | inl mine ↦
          let rows : after.table id ≡ update_dict (st.table id) (cleaned values) =
            table-save_settings g user id now writes reads values st ∙ choose_left _ _ mine in
          rw (rows, mine)
            (lookup-merged k (update_dict (st.table id) (cleaned values)) known
                (update_dict-IsUnique (st.table id) (cleaned values) ut)
              ∙ ap (λ o. or_else o (lookup k defaults))
                  (lookup-update_dict k (st.table id) (cleaned values) (cleaned-IsUnique values uv)
                    ∙ ap (λ o. or_else o (lookup k (st.table id))) (lookup-cleaned k values known))
              ∙ or_else_assoc (validated k (lookup k values)) (lookup k (st.table id))
                  (lookup k defaults))
      | inr other ↦
          let rows : after.table id ≡ st.table id =
            table-save_settings g user id now writes reads values st ∙ choose_right _ _ other in
          rw (rows, other) (lookup-merged k (st.table id) known ut)
    ])

-- Whatever text is saved as a threshold, what is stored reads as a number within the bounds: from 1 to
-- 100 for the low one, from 0 to 99 for the critical one.
pub validate_bounds :
    (raw : String)
    → ((n : ℕ) × (int_of (validate "low_stock_threshold" raw) ≡ some (pos n)) × (1 ≤ n) × (n ≤ 100))
      × ((n : ℕ) × (int_of (validate "critical_threshold" raw) ≡ some (pos n)) × (n ≤ 99))
unfolding validate any_of
validate_bounds raw =
    let low = clamp 1 100 (int_or (strip raw) 20) in
    let critical = clamp 0 99 (int_or (strip raw) 10) in
    let (above, below) = clamp_bounds 1 100 (int_or (strip raw) 20) (omega arith) in
    let (least, most) = clamp_bounds 0 99 (int_or (strip raw) 10) (omega arith) in
    ((low, int_of-str_of low, above, below), (critical, int_of-str_of critical, most))
