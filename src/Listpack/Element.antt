-- ===== src/Listpack/Element.antt =====
-- Reading one element of src/listpack.cpp: lpCurrentEncodedSizeUnsafe, lpCurrentEncodedSizeBytes and
-- lpGetWithSize, with the length macros of src/listpack.h. A pointer that is only read forwards is
-- the list of the bytes from it on.
pub mod Integer
pub mod Text
pub mod Size
use carrotdb.Base.{
  ℕ, suc, ◌+◌, ◌-◌, ◌*◌, ◌^◌, ◌%◌, bit_and, bit_or, List, Option, none, some, get_or, take, drop,
  ltb, leb, ◌==◌, if◌then◌else◌,
}
use carrotdb.Base.Int.{ℤ, pos, negsuc}
use carrotdb.Base.Decimal.{print_i64}
use carrotdb.Base.Bits.{◌<<◌}
use carrotdb.Listpack.Number.{uint64_max, u64_mod}
use carrotdb.Listpack.Encoding.Header.{
  is_7_bit_uint, is_13_bit_int, is_16_bit_int, is_24_bit_int, is_32_bit_int, is_64_bit_int,
  is_6_bit_str, is_12_bit_str, is_32_bit_str,
}
use carrotdb.Listpack.Backlen.{encode_backlen_bytes}

abbrev pub lp_eof : ℕ
lp_eof = 0xFF

-- p[k]
abbrev pub byte : List ℕ → ℕ → ℕ
byte p k = get_or p k 0

unfoldable pub len_6_bit_str : List ℕ → ℕ
len_6_bit_str p = bit_and (byte p 0) 0x3F

unfoldable pub len_12_bit_str : List ℕ → ℕ
len_12_bit_str p = bit_or (bit_and (byte p 0) 0xF << 8) (byte p 1)

unfoldable pub len_32_bit_str : List ℕ → ℕ
len_32_bit_str p =
    bit_or (bit_or (bit_or (byte p 1) (byte p 2 << 8)) (byte p 3 << 16)) (byte p 4 << 24)

-- The bytes of the header and the payload, as a uint32_t.
unfoldable pub current_encoded_size_unsafe : List ℕ → ℕ
current_encoded_size_unsafe p =
    if is_7_bit_uint (byte p 0)
    then 1
    else if is_13_bit_int (byte p 0)
    then 2
    else if is_16_bit_int (byte p 0)
    then 3
    else if is_24_bit_int (byte p 0)
    then 4
    else if is_32_bit_int (byte p 0)
    then 5
    else if is_64_bit_int (byte p 0)
    then 9
    else if is_6_bit_str (byte p 0)
    then (1 + len_6_bit_str p) % 2 ^ 32
    else if is_12_bit_str (byte p 0)
    then (2 + len_12_bit_str p) % 2 ^ 32
    else if is_32_bit_str (byte p 0)
    then (5 + len_32_bit_str p) % 2 ^ 32
    else if byte p 0 == lp_eof
    then 1
    else 0

-- The bytes of the header alone. The source has no case for a 64-bit integer, whose first byte is
-- therefore answered with 0.
unfoldable pub current_encoded_size_bytes : List ℕ → ℕ
current_encoded_size_bytes p =
    if is_7_bit_uint (byte p 0)
    then 1
    else if is_13_bit_int (byte p 0)
    then 1
    else if is_16_bit_int (byte p 0)
    then 1
    else if is_24_bit_int (byte p 0)
    then 1
    else if is_32_bit_int (byte p 0)
    then 1
    else if is_6_bit_str (byte p 0)
    then 1
    else if is_12_bit_str (byte p 0)
    then 2
    else if is_32_bit_str (byte p 0)
    then 5
    else if byte p 0 == lp_eof
    then 1
    else 0

-- What lpGetWithSize gives: for a string the pointer (here its distance from `p`) and the length
-- stored in `*count`, for an integer a null pointer and the value stored in `*count`.
pub data Got : Type 0 where
  text : ℕ → ℕ → Got
  integer : ℤ → Got

-- `if (uval >= negstart)`: the value of a pattern whose sign bit is `negstart`.
unfoldable pub signed_value : ℕ → ℕ → ℕ → ℤ
signed_value negstart negmax uval = if leb negstart uval then negsuc (negmax - uval) else pos uval

unfoldable pub le_bytes_2 : List ℕ → ℕ
le_bytes_2 p = bit_or (byte p 1) (byte p 2 << 8)

unfoldable pub le_bytes_3 : List ℕ → ℕ
le_bytes_3 p = bit_or (le_bytes_2 p) (byte p 3 << 16)

unfoldable pub le_bytes_4 : List ℕ → ℕ
le_bytes_4 p = bit_or (le_bytes_3 p) (byte p 4 << 24)

unfoldable pub le_bytes_8 : List ℕ → ℕ
le_bytes_8 p =
    bit_or
      (bit_or (bit_or (bit_or (le_bytes_4 p) (byte p 5 << 32)) (byte p 6 << 40)) (byte p 7 << 48))
      (byte p 8 << 56)

-- The answer, and the size stored in `*entry_size` where the branch stores one.
unfoldable pub get_with_size : List ℕ → Got × Option ℕ
get_with_size p =
    if is_7_bit_uint (byte p 0)
    then (integer (signed_value uint64_max 0 (bit_and (byte p 0) 0x7f)), some 2)
    else if is_6_bit_str (byte p 0)
    then (let count = len_6_bit_str p in
        (text 1 count, some (1 + count + encode_backlen_bytes (count + 1))))
    else if is_13_bit_int (byte p 0)
    then (
      integer (signed_value (1 << 12) 8191 (bit_or (bit_and (byte p 0) 0x1f << 8) (byte p 1))),
      some 3,
    )
    else if is_16_bit_int (byte p 0)
    then (integer (signed_value (1 << 15) (2 ^ 16 - 1) (le_bytes_2 p)), some 4)
    else if is_24_bit_int (byte p 0)
    then (integer (signed_value (1 << 23) (2 ^ 24 - 1) (le_bytes_3 p)), some 5)
    else if is_32_bit_int (byte p 0)
    then (integer (signed_value (1 << 31) (2 ^ 32 - 1) (le_bytes_4 p)), some 6)
    else if is_64_bit_int (byte p 0)
    then (integer (signed_value (1 << 63) uint64_max (le_bytes_8 p)), some 10)
    else if is_12_bit_str (byte p 0)
    then (let count = len_12_bit_str p in
        (text 2 count, some (2 + count + encode_backlen_bytes (count + 2))))
    else if is_32_bit_str (byte p 0)
    then (let count = len_32_bit_str p in
        (text 5 count, some (5 + count + encode_backlen_bytes (count + 5))))
    else (integer (signed_value uint64_max 0 (12345678900000000 + byte p 0)), none)

-- The element as the text that the commands send: the string itself, or the integer printed.
unfoldable pub element_text : List ℕ → List ℕ
element_text p = elim (get_with_size p).0 [
  | text start count ↦ take count (drop start p)
  | integer v ↦ print_i64 v
]
