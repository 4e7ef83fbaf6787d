-- ===== src/Base/Int.antt =====
-- Signed integers, as far as the program reads them from its callers: `negsuc n` is -(n + 1).
use inventory_logix_dashboar.Base.{ℕ, Bool, true, false, ltb}

pub data ℤ : Type 0 where
  pos : ℕ → ℤ
  negsuc : ℕ → ℤ

abbrev pub ltb_ℤ : ℤ → ℤ → Bool
ltb_ℤ (pos a) (pos b) = ltb a b
ltb_ℤ (pos a) (negsuc b) = false
ltb_ℤ (negsuc a) (pos b) = true
ltb_ℤ (negsuc a) (negsuc b) = ltb b a
