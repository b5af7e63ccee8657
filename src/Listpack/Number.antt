-- ===== src/Listpack/Number.antt =====
-- lpStringToInt64 of src/listpack.cpp: which byte strings are stored as integers.
pub mod RoundTrip
use carrotdb.Base.{
  ℕ, ◌+◌, ◌-◌, ◌*◌, ◌/◌, ◌%◌, ◌^◌, Bool, true, false, ◌&&◌, ◌||◌, List, [], ◌∷◌, Option, none, some,
  length, ltb, leb, ◌==◌, if◌then◌else◌,
}
use carrotdb.Base.Int.{ℤ, pos, sub_ℕ}
use carrotdb.Base.Decimal.{is_digit}

abbrev pub max_long_int_str_len : ℕ
max_long_int_str_len = 21

abbrev pub u64_mod : ℕ
u64_mod = 2 ^ 64

abbrev pub uint64_max : ℕ
uint64_max = 2 ^ 64 - 1

abbrev pub int64_max : ℕ
int64_max = 2 ^ 63 - 1

-- The loop over the digits behind the first: `none` is the early `return 0` on overflow, else the
-- value and the bytes that are not read.
unfoldable pub digits_loop : ℕ → List ℕ → Option (ℕ × List ℕ)
digits_loop v [] = some (v, [])
digits_loop v (c ∷ s) =
    let v10 = v * 10 % u64_mod in
    let rest = digits_loop ((v10 + (c - b'0')) % u64_mod) s in
    if is_digit c
    then (if ltb (uint64_max / 10) v
        then none
        else if ltb (uint64_max - (c - b'0')) v10
        then none
        else rest)
    else some (v, c ∷ s)

-- `if (plen < slen) return 0`, then the range check and the sign.
unfoldable pub finish : Bool → Option (ℕ × List ℕ) → Option ℤ
finish negative none = none
finish negative (some (v, c ∷ s)) = none
finish true (some (v, [])) = if ltb (int64_max + 1) v then none else some (sub_ℕ 0 v)
finish false (some (v, [])) = if ltb int64_max v then none else some (pos v)

-- The first digit is one of 1 to 9.
unfoldable pub first_digit : Bool → List ℕ → Option ℤ
unfolding digits_loop finish
first_digit negative [] = none
first_digit negative (c ∷ s) =
    if leb b'1' c && leb c b'9' then finish negative (digits_loop (c - b'0') s) else none

unfoldable pub sign : List ℕ → Option ℤ
unfolding first_digit
sign [] = none
sign (c ∷ s) = if c == b'-' then first_digit true s else first_digit false (c ∷ s)

abbrev pub is_zero_text : List ℕ → Bool
is_zero_text [] = false
is_zero_text (c ∷ []) = c == b'0'
is_zero_text (c ∷ d ∷ s) = false

unfoldable pub string_to_int64 : List ℕ → Option ℤ
unfolding sign
string_to_int64 s =
    if length s == 0 || leb max_long_int_str_len (length s)
    then none
    else if is_zero_text s
    then some (pos 0)
    else sign s
