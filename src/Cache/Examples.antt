-- ===== src/Cache/Examples.antt =====
-- Concrete runs of the cache.
use inventory_logix_dashboar.Cache.Flights.{Move, look, enter, publish, move_all, at_rest}
use inventory_logix_dashboar.Cache.Herd.{calls-move_all-le}
use inventory_logix_dashboar.Base.{
  ℕ, ◌+◌, ◌≤◌, ◌≡◌, ◌≢◌, eq_iff, refl, none, some, List, [], ◌∷◌, arith, String,
}
use inventory_logix_dashboar.Base.Dict.{lookup}
use inventory_logix_dashboar.Cache.{TtlCache, new, get, set, get_or_set}
use inventory_logix_dashboar.Cache.Calls.{Call, perform_all, call_get, call_set, call_invalidate}
use inventory_logix_dashboar.Cache.Bounds.{IsValid, perform_all-new-IsValid}
use inventory_logix_dashboar.Cache.Lookup.{get_or_set_miss, get-set_read}
use inventory_logix_dashboar.Cache.Busts.{
  Caches, named_caches, cache_bust_movements, cache_bust_movements_keeps_api,
}

-- Two of two places are taken.
abbrev full : TtlCache ℕ
full = record {
  ttl = 300;
  max_entries = 2;
  store =
      ("product:7", record { expiry = 400; value = 7 })
      ∷ ("movements:1", record { expiry = 400; value = 1 })
      ∷ [];
  hits = 0;
  misses = 0;
}

abbrev few : Caches ℕ
few = record named_caches { api = full; products = full; dashboard = full }

no_nine : (get "product:9" 200 full).0 ≡ none
unfolding get lookup
no_nine = refl

get_or_set_miss_example :
    let (answer, after) = get_or_set "product:9" (some 9) 200 200 201 full in
    (answer ≡ some 9) × ((get "product:9" 300 after).0 ≡ some 9) × (after.misses ≡ 2)
get_or_set_miss_example =
    get_or_set_miss "product:9" 9 200 200 201 300 full no_nine (omega arith) (omega arith)

seven : (get "product:7" 200 full).0 ≡ some 7
unfolding get lookup
seven = refl

abbrev nine_key : String
nine_key = "product:9"

nine_is_other : nine_key ≢ "product:7"
nine_is_other h = cc ((eq_iff "product:9" "product:7").1 h)

get-set_read_example :
    (get "product:7" 250 (set "product:9" 9 none 200 (get "product:7" 200 full).1)).0
    ≡ (get "product:7" 250 full).0
get-set_read_example =
    get-set_read "product:7" "product:9" 7 9 none 200 250 full seven nine_is_other (omega arith)

abbrev some_calls : List (Call ℕ)
some_calls =
    call_set "a" 1 none 0
    ∷ call_set "b" 2 none 1
    ∷ call_get "a" 2
    ∷ call_set "c" 3 (some 5) 3
    ∷ call_invalidate "b"
    ∷ []

perform_all-new-IsValid_example : IsValid (perform_all some_calls (new 300 2))
perform_all-new-IsValid_example = perform_all-new-IsValid 300 2 some_calls

cache_bust_movements_keeps_api_example :
    (get "product:7" 200 (cache_bust_movements few).1.api).0 ≡ (get "product:7" 200 few.api).0
cache_bust_movements_keeps_api_example = cache_bust_movements_keeps_api few "product:7" 200 refl

-- Both threads miss; the second waits for the first and then finds its value.
abbrev moves : List (Move ℕ)
moves = look 1 100 ∷ look 2 101 ∷ enter 1 102 ∷ enter 2 103 ∷ publish 1 42 150 ∷ enter 2 151 ∷ []

calls-move_all-le_example :
    (move_all "stats" moves (at_rest (new 600 10))).calls
    ≤ (move_all "stats" moves (at_rest (new 600 10))).failures + 1
unfolding new
calls-move_all-le_example =
    calls-move_all-le "stats" 100 600 moves (new 600 10) (omega arith) refl (omega arith)
