-- ===== src/Orders/Prechecks.antt =====
-- What the checks of `POService.receive` are worth.
use inventory_logix_dashboar.Base.{◌≡◌, Bool, false, Option, none, some, ◌<◌}
use inventory_logix_dashboar.Base.Text.{length_chars}
use inventory_logix_dashboar.Stock.{Outcome, raised, committed}
use inventory_logix_dashboar.Orders.{
  OrderDb, PoGuard, key_reused, no_key_constraint, value_too_long, movement,
}
use inventory_logix_dashboar.Orders.Service.{ReceiveError, database}

-- The procedure itself raises only for the movement, for a key that was used for another receipt, for a
-- text that is longer than its column, or for want of a constraint that `ON CONFLICT` can name.
unfoldable pub IsExpected : Bool → Outcome ReceiveError OrderDb → Type 0
IsExpected has_constraint (raised (database (movement guard))) = Unit
IsExpected has_constraint (raised (database (key_reused key))) = Unit
IsExpected has_constraint (raised (database no_key_constraint)) = has_constraint ≡ false
IsExpected has_constraint (raised (database (value_too_long text limit))) =
    limit < length_chars text
IsExpected has_constraint (raised (database _)) = ⊥
IsExpected has_constraint (raised _) = Unit
IsExpected has_constraint (committed db) = Unit

-- A guard, if there is one, is expected.
abbrev ExpectedIf : Bool → Option PoGuard → Type 0
ExpectedIf has_constraint none = Unit
ExpectedIf has_constraint (some guard) = IsExpected has_constraint (raised (database guard))
