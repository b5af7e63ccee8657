-- ===== src/Utils.antt =====
-- utils/utils.h: the number parsers and the comparison of command names.
pub mod Print
mod Examples
use carrotdb.Base.{
  ℕ, ◌+◌, ◌-◌, ◌*◌, ◌/◌, ◌%◌, ◌^◌, Bool, true, false, ◌&&◌, not, List, [], ◌∷◌, Option, none, some,
  ltb, leb, ◌==◌, if◌then◌else◌, length,
}
use carrotdb.Base.Int.{ℤ, pos, negsuc}
use carrotdb.Base.Decimal.{is_digit}

-- The loop: nothing at a byte that is no digit; the number is kept in 64 bits.
unfoldable pub positive_loop : List ℕ → ℕ → Option ℕ
positive_loop [] number = some number
positive_loop (x ∷ s) number =
    let rest = positive_loop s ((number * 10 % 2 ^ 64 + (x - b'0')) % 2 ^ 64) in
    if is_digit x then rest else none

unfoldable pub convert_positive_string_to_number : List ℕ → Option ℕ
convert_positive_string_to_number s = positive_loop s 0

-- The digits after the first: nothing at an overflow of 64 bits or a byte that is no digit.
unfoldable pub more_digits : List ℕ → ℕ → Option ℕ
more_digits [] number = some number
more_digits (x ∷ s) number =
    let digit = x - b'0' in
    let rest = more_digits s (number * 10 + digit) in
    if not (is_digit x)
    then none
    else if ltb ((2 ^ 64 - 1) / 10) number
    then none
    else if ltb (2 ^ 64 - 1 - digit) (number * 10)
    then none
    else rest

-- The digits from the first on.
unfoldable pub magnitude : List ℕ → Option ℕ
magnitude [] = none
magnitude (x ∷ s) = if is_digit x then more_digits s (x - b'0') else none

-- The sign and the bounds of int64_t.
unfoldable pub with_sign : Bool → ℕ → Option ℤ
with_sign true number =
    if ltb (2 ^ 63) number then none else some (if number == 0 then pos 0 else negsuc (number - 1))
with_sign false number = if ltb (2 ^ 63 - 1) number then none else some (pos number)

unfoldable pub signed_number : Bool → Option ℕ → Option ℤ
signed_number negative none = none
signed_number negative (some number) = with_sign negative number

unfoldable pub convert_string_to_number : List ℕ → Option ℤ
convert_string_to_number [] = none
convert_string_to_number (x ∷ s) =
    if (length s == 0) && (x == b'0')
    then some (pos 0)
    else if ltb 0 (length s) && (x == b'-')
    then signed_number true (magnitude s)
    else signed_number false (magnitude (x ∷ s))

-- `tolower` in the "C" locale.
unfoldable pub tolower : ℕ → ℕ
tolower x = if leb b'A' x && leb x b'Z' then x + 32 else x

unfoldable pub equal_loop : List ℕ → List ℕ → Bool
equal_loop [] s2 = true
equal_loop (x ∷ s1) [] = true
equal_loop (x ∷ s1) (y ∷ s2) =
    let rest = equal_loop s1 s2 in if not (tolower x == tolower y) then false else rest

unfoldable pub is_equal : List ℕ → List ℕ → Bool
is_equal s1 s2 = if not (length s1 == length s2) then false else equal_loop s1 s2
