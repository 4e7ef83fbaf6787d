-- ===== src/Idempotency/Examples.antt =====
-- Concrete requests with idempotency keys.
use inventory_logix_dashboar.Base.{
  ℕ, ◌≡◌, refl, true, not, ◌&&◌, ◌||◌, is_some, none, some, List, [], ◌∷◌,
}
use inventory_logix_dashboar.Idempotency.{
  ViewResult, response_of, view_raised, run_view, in_progress, find_key, arrive, settle, cacheable,
  reserve_idempotency, is_for,
}
use inventory_logix_dashboar.Idempotency.Exactly.{
  Step, arrives, settles, run, waits, one_at_a_time, waits-settle,
}

abbrev steps : List (Step ℕ)
steps = arrives "k2" 1 ∷ settles view_raised true true "k2" 1 ∷ arrives "k1" 2 ∷ arrives "k1" 1 ∷ []

one_at_a_time_example :
    ((arrive {D = ℕ} "k1" 1 []).0 ≡ run_view)
    × ((arrive "k1" 1 (run steps (arrive "k1" 1 []).1)).0 ≡ in_progress)
unfolding find_key
one_at_a_time_example = one_at_a_time "k1" 1 [] steps refl (refl, (refl, (refl, (refl, tt))))

-- A form post that answers with a redirect.
abbrev found_page : ViewResult ℕ
found_page = response_of 302 none (some "/products")

held : find_key {D = ℕ} "k1" 1 (arrive "k1" 1 []).1 ≡ some none
unfolding find_key arrive reserve_idempotency is_for
held = refl

waits-settle_example :
    waits (arrive "k1" 1 (settle {D = ℕ} view_raised true true "k1" 1 (arrive "k1" 1 []).1)).0
    ≡ not ((is_some (cacheable {D = ℕ} view_raised) && true) || true)
waits-settle_example = waits-settle view_raised true true "k1" 1 (arrive "k1" 1 []).1 held
