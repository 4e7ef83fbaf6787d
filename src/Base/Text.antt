-- ===== src/Base/Text.antt =====
-- Python's operations on texts, as far as the program uses them: blanks, letters and digits are those
-- of ASCII, and a text is walked by its characters.
use Prim.Native.Nat.{compare, Ordering}
use Prim.Native.Char.{Char, char, code, IsScalar}
use inventory_logix_dashboar.Base.{
  ℕ, zero, suc, ◌+◌, ◌-◌, ◌%◌, String, ◌≡◌, Bool, ◌&&◌, ◌||◌, Option, none, some, arith, leb, ◌==◌,
  str_eq, if◌then◌else◌,
}

-- `s[:n]`
unfoldable pub take_chars : ℕ → String → String
take_chars zero s = ""
take_chars (suc n) String.[] = ""
take_chars (suc n) (String.◌∷◌ c s) = String.◌∷◌ c (take_chars n s)

-- `s[n:]`
unfoldable pub drop_chars : ℕ → String → String
drop_chars zero s = s
drop_chars (suc n) String.[] = ""
drop_chars (suc n) (String.◌∷◌ c s) = drop_chars n s

unfoldable pub length_chars : String → ℕ
length_chars String.[] = 0
length_chars (String.◌∷◌ c s) = suc (length_chars s)

-- `s.startswith(p)`, for a prefix of so many characters
unfoldable pub begins_with : String → String → Bool
unfolding take_chars length_chars
begins_with s p = str_eq (take_chars (length_chars p) s) p

-- The text after the first `p`: `s.split(p, 1)[1]`, or `none` if `p` is not in `s`.
unfoldable pub after_first : String → String → Option String
unfolding begins_with drop_chars length_chars
after_first p String.[] = none
after_first p (String.◌∷◌ c s) =
    if begins_with (String.◌∷◌ c s) p
    then some (drop_chars (length_chars p) (String.◌∷◌ c s))
    else after_first p s

unfoldable pub is_blank : Char → Bool
is_blank c = (code c == 32) || (leb 9 (code c) && leb (code c) 13)

unfoldable pub strip_left : String → String
unfolding is_blank
strip_left String.[] = ""
strip_left (String.◌∷◌ c s) = if is_blank c then strip_left s else String.◌∷◌ c s

-- Put a character before a text that is stripped on the right.
abbrev push : Char → String → String
push c String.[] = if is_blank c then "" else String.◌∷◌ c ""
push c (String.◌∷◌ d s) = String.◌∷◌ c (String.◌∷◌ d s)

unfoldable pub strip_right : String → String
strip_right String.[] = ""
strip_right (String.◌∷◌ c s) = push c (strip_right s)

-- `s.strip()`
unfoldable pub strip : String → String
unfolding strip_left strip_right
strip s = strip_right (strip_left s)

-- `s or d`
unfoldable pub or_text : String → String → String
or_text String.[] d = d
or_text (String.◌∷◌ c s) d = String.◌∷◌ c s

low_code : (n : ℕ) → IsScalar (n % 128)
low_code n = let low : compare (n % 128) 55296 ≡ Ordering.lt = ground arith in rw low tt

unfoldable pub upper_char : Char → Char
unfolding low_code
upper_char c =
    if leb 97 (code c) && leb (code c) 122
    then char ((code c - 32) % 128) (low_code (code c - 32))
    else c

-- `s.upper()`
unfoldable pub upper : String → String
unfolding upper_char
upper String.[] = ""
upper (String.◌∷◌ c s) = String.◌∷◌ (upper_char c) (upper s)

unfoldable pub lower_char : Char → Char
unfolding low_code
lower_char c =
    if leb 65 (code c) && leb (code c) 90
    then char ((code c + 32) % 128) (low_code (code c + 32))
    else c

-- `s.lower()`
unfoldable pub lower : String → String
unfolding lower_char
lower String.[] = ""
lower (String.◌∷◌ c s) = String.◌∷◌ (lower_char c) (lower s)

-- `"".join(ch for ch in s if ch.isdigit())`
unfoldable pub keep_digits : String → String
keep_digits String.[] = ""
keep_digits (String.◌∷◌ c s) =
    let rest = keep_digits s in
    if leb 48 (code c) && leb (code c) 57 then String.◌∷◌ c rest else rest

-- `s.zfill(2)`, for a text with no sign
unfoldable pub zfill_two : String → String
zfill_two String.[] = "00"
zfill_two (String.◌∷◌ c String.[]) = String.◌∷◌ "0" (String.◌∷◌ c "")
zfill_two (String.◌∷◌ c (String.◌∷◌ d s)) = String.◌∷◌ c (String.◌∷◌ d s)
