-- ===== src/Base/Decimal.antt =====
-- Python's `str` of a natural number, and `int` of a text of digits with at most one sign and with single
-- underscores between digits; the blanks around a number that `int` also takes are not read here.
use Prim.Native.Char.{Char, code}
use inventory_logix_dashboar.Base.{
  ℕ, zero, suc, ◌+◌, ◌-◌, ◌*◌, ◌/◌, ◌%◌, ◌<◌, String, ◌≡◌, refl, ap, ◌∙◌, inl, inr, Bool, true,
  false, ◌&&◌, Option, none, some, arith, ltb, leb, ◌==◌, if◌then◌else◌, Bool-cases,
}
use inventory_logix_dashboar.Base.Int.{ℤ, pos, negsuc}

unfoldable pub digit : ℕ → Char
digit zero = "0"
digit (suc zero) = "1"
digit (suc (suc zero)) = "2"
digit (suc (suc (suc zero))) = "3"
digit (suc (suc (suc (suc zero)))) = "4"
digit (suc (suc (suc (suc (suc zero))))) = "5"
digit (suc (suc (suc (suc (suc (suc zero)))))) = "6"
digit (suc (suc (suc (suc (suc (suc (suc zero))))))) = "7"
digit (suc (suc (suc (suc (suc (suc (suc (suc zero)))))))) = "8"
digit (suc (suc (suc (suc (suc (suc (suc (suc (suc n))))))))) = "9"

unfoldable pub is_digit : Char → Bool
is_digit c = leb 48 (code c) && leb (code c) 57

-- The digits of the number, put before the text.
unfoldable pub digits : ℕ → ℕ → String → String
digits zero n s = s
digits (suc fuel) n s =
    let more = digits fuel (n / 10) (String.◌∷◌ (digit (n % 10)) s) in
    if ltb n 10 then String.◌∷◌ (digit n) s else more

-- `str(n)`
unfoldable pub str_of : ℕ → String
unfolding digits
str_of n = digits (suc n) n ""

unfoldable pub starts_digit : String → Bool
starts_digit String.[] = false
starts_digit (String.◌∷◌ c s) = is_digit c

-- The digits, of which each may have one underscore before it.
unfoldable pub int_digits : String → ℕ → Option ℕ
unfolding starts_digit
int_digits String.[] acc = some acc
int_digits (String.◌∷◌ c s) acc =
    let rest = int_digits s (if is_digit c then acc * 10 + (code c - 48) else acc) in
    if is_digit c then rest else if (code c == 95) && starts_digit s then rest else none

unfoldable pub int_unsigned : String → Option ℕ
unfolding int_digits
int_unsigned s = if starts_digit s then int_digits s 0 else none

abbrev negated : Option ℕ → Option ℤ
negated none = none
negated (some zero) = some (pos 0)
negated (some (suc n)) = some (negsuc n)

abbrev plain : Option ℕ → Option ℤ
plain none = none
plain (some n) = some (pos n)

unfoldable pub int_signed : String → Option ℤ
int_signed String.[] = none
int_signed (String.◌∷◌ c s) =
    if code c == 45
    then negated (int_unsigned s)
    else if code c == 43
    then plain (int_unsigned s)
    else none

-- `int(s)`, with `none` for a `ValueError`
unfoldable pub int_of : String → Option ℤ
unfolding int_signed
int_of s = if starts_digit s then plain (int_unsigned s) else int_signed s

digit_reads : (d : ℕ) → d < 10 → (is_digit (digit d) ≡ true) × (code (digit d) ≡ 48 + d)
unfolding digit is_digit
digit_reads zero h = (refl, refl)
digit_reads (suc zero) h = (refl, refl)
digit_reads (suc (suc zero)) h = (refl, refl)
digit_reads (suc (suc (suc zero))) h = (refl, refl)
digit_reads (suc (suc (suc (suc zero)))) h = (refl, refl)
digit_reads (suc (suc (suc (suc (suc zero))))) h = (refl, refl)
digit_reads (suc (suc (suc (suc (suc (suc zero)))))) h = (refl, refl)
digit_reads (suc (suc (suc (suc (suc (suc (suc zero))))))) h = (refl, refl)
digit_reads (suc (suc (suc (suc (suc (suc (suc (suc zero)))))))) h = (refl, refl)
digit_reads (suc (suc (suc (suc (suc (suc (suc (suc (suc n))))))))) h =
    let same : n ≡ 0 = omega arith in (refl, rw same refl)

int_digits-cons :
    (d acc : ℕ) (s : String)
    → d < 10
    → int_digits (String.◌∷◌ (digit d) s) acc ≡ int_digits s (acc * 10 + d)
unfolding int_digits
int_digits-cons d acc s h =
    let (fits, value) = digit_reads d h in
    let sum : acc * 10 + (code (digit d) - 48) ≡ acc * 10 + d = omega arith in rw (fits, sum) refl

-- Reading the digits of `n` before a text is reading the text from `n` on.
int_digits-digits :
    (fuel n : ℕ) (s : String) → n < fuel → int_digits (digits fuel n s) 0 ≡ int_digits s n
unfolding digits
int_digits-digits zero n s h = absurd (omega arith)
int_digits-digits (suc fuel) n s h = elim (Bool-cases (ltb n 10)) [
  | inl small ↦ rw small (int_digits-cons n 0 s (ground arith) ∙ ap (int_digits s) (omega arith))
  | inr big ↦ rw big (
      int_digits-digits fuel (n / 10) (String.◌∷◌ (digit (n % 10)) s) (ground arith)
      ∙ int_digits-cons (n % 10) (n / 10) s (omega arith)
      ∙ ap (int_digits s) (omega arith))
]

starts_digit-cons : (d : ℕ) (s : String) → d < 10 → starts_digit (String.◌∷◌ (digit d) s) ≡ true
unfolding starts_digit
starts_digit-cons d s h = (digit_reads d h).0

starts_digit-digits :
    (fuel n : ℕ) (s : String) → starts_digit s ≡ true → starts_digit (digits fuel n s) ≡ true
unfolding digits
starts_digit-digits zero n s h = h
starts_digit-digits (suc fuel) n s h = elim (Bool-cases (ltb n 10)) [
  | inl small ↦ rw small (starts_digit-cons n s (ground arith))
  | inr big ↦ rw big (
      starts_digit-digits fuel (n / 10) (String.◌∷◌ (digit (n % 10)) s)
        (starts_digit-cons (n % 10) s (omega arith)))
]

pub starts_digit-str_of : (n : ℕ) → starts_digit (str_of n) ≡ true
unfolding str_of digits
starts_digit-str_of n = elim (Bool-cases (ltb n 10)) [
  | inl small ↦ rw small (starts_digit-cons n "" (ground arith))
  | inr big ↦ rw big (
      starts_digit-digits n (n / 10) (String.◌∷◌ (digit (n % 10)) "")
        (starts_digit-cons (n % 10) "" (omega arith)))
]

-- What `str` writes, `int` reads.
pub int_unsigned-str_of : (n : ℕ) → int_unsigned (str_of n) ≡ some n
unfolding int_unsigned str_of int_digits
int_unsigned-str_of n = rw (starts_digit-str_of n) (int_digits-digits (suc n) n "" (omega arith))

pub int_of-str_of : (n : ℕ) → int_of (str_of n) ≡ some (pos n)
unfolding int_of
int_of-str_of n = rw (starts_digit-str_of n, int_unsigned-str_of n) refl

pub str_of_injective : (m n : ℕ) → str_of m ≡ str_of n → m ≡ n
str_of_injective m n e = cc (int_unsigned-str_of m, int_unsigned-str_of n, ap int_unsigned e)
