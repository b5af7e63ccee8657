-- ===== src/Listpack/Encoding.antt =====
-- How src/listpack.cpp writes the header and the payload of one element: lpEncodeIntegerGetType,
-- lpEncodeGetType and lpEncodeString. A store into an `unsigned char` keeps the low eight bits.
pub mod Header
pub mod Bytes
use carrotdb.Base.{
  ℕ, suc, ◌+◌, ◌-◌, ◌/◌, ◌*◌, ◌%◌, ◌^◌, Bool, ◌&&◌, bit_and, bit_or, List, [], ◌∷◌, ◌++◌, Option,
  none, some, length, ltb, ◌==◌, if◌then◌else◌,
}
use carrotdb.Base.Int.{ℤ, pos, negsuc, leb_ℤ}
use carrotdb.Base.Bits.{◌>>◌}
use carrotdb.Listpack.Number.{string_to_int64}

abbrev pub uint8 : ℕ → ℕ
uint8 x = x % 256

-- The value as a pattern of `w` bits: a negative one has 2 ^ w added.
abbrev pub pattern_bits : ℕ → ℤ → ℕ
pattern_bits w (pos n) = n
pattern_bits w (negsuc n) = 2 ^ w - suc n

abbrev pub within : ℤ → ℤ → ℤ → Bool
within lo hi v = leb_ℤ lo v && leb_ℤ v hi

encode_13 : ℕ → List ℕ
encode_13 u = uint8 (bit_or (u >> 8) 0xC0) ∷ uint8 (bit_and u 0xff) ∷ []

encode_16 : ℕ → List ℕ
encode_16 u = 0xF1 ∷ uint8 (bit_and u 0xff) ∷ uint8 (u >> 8) ∷ []

encode_24 : ℕ → List ℕ
encode_24 u = 0xF2 ∷ uint8 (bit_and u 0xff) ∷ uint8 (bit_and (u >> 8) 0xff) ∷ uint8 (u >> 16) ∷ []

encode_32 : ℕ → List ℕ
encode_32 u =
    0xF3
    ∷ uint8 (bit_and u 0xff)
    ∷ uint8 (bit_and (u >> 8) 0xff)
    ∷ uint8 (bit_and (u >> 16) 0xff)
    ∷ uint8 (u >> 24)
    ∷ []

encode_64 : ℕ → List ℕ
encode_64 u =
    0xF4
    ∷ uint8 (bit_and u 0xff)
    ∷ uint8 (bit_and (u >> 8) 0xff)
    ∷ uint8 (bit_and (u >> 16) 0xff)
    ∷ uint8 (bit_and (u >> 24) 0xff)
    ∷ uint8 (bit_and (u >> 32) 0xff)
    ∷ uint8 (bit_and (u >> 40) 0xff)
    ∷ uint8 (bit_and (u >> 48) 0xff)
    ∷ uint8 (u >> 56)
    ∷ []

-- The bytes put into `intenc`; `enclen` is their number.
unfoldable pub encode_integer : ℤ → List ℕ
unfolding encode_13 encode_16 encode_24 encode_32 encode_64
encode_integer v =
    if within (pos 0) (pos 127) v
    then uint8 (pattern_bits 8 v) ∷ []
    else if within (negsuc 4095) (pos 4095) v
    then encode_13 (pattern_bits 13 v)
    else if within (negsuc 32767) (pos 32767) v
    then encode_16 (pattern_bits 16 v)
    else if within (negsuc 8388607) (pos 8388607) v
    then encode_24 (pattern_bits 24 v)
    else if within (negsuc 2147483647) (pos 2147483647) v
    then encode_32 (pattern_bits 32 v)
    else encode_64 (pattern_bits 64 v)

-- The header bytes and the copy of the string.
unfoldable pub encode_string : List ℕ → List ℕ
encode_string s =
    let len = length s in
    if ltb len 64
    then uint8 (bit_or len 0x80) ∷ s
    else if ltb len 4096
    then uint8 (bit_or (len >> 8) 0xE0) ∷ uint8 (bit_and len 0xff) ∷ s
    else 0xF0
      ∷ uint8 (bit_and len 0xff)
      ∷ uint8 (bit_and (len >> 8) 0xff)
      ∷ uint8 (bit_and (len >> 16) 0xff)
      ∷ uint8 (bit_and (len >> 24) 0xff)
      ∷ s

-- What lpEncodeGetType answers: the encoded integer, or that the element stays a string; and the
-- number of bytes that either takes.
pub record Choice : Type 0 where
  pub intenc : Option (List ℕ)
  pub enclen : ℕ

unfoldable pub encode_get_type : List ℕ → Choice
encode_get_type ele = elim (string_to_int64 ele) [
  | some v ↦ record { intenc = some (encode_integer v); enclen = length (encode_integer v) }
  | none ↦ record {
    intenc = none;
    enclen =
        if ltb (length ele) 64
        then 1 + length ele
        else if ltb (length ele) 4096
        then 2 + length ele
        else 5 + length ele;
  }
]

-- The bytes that lpInsert copies to the place of a new element: `intenc`, or the encoded string.
unfoldable pub encode_element : List ℕ → List ℕ
encode_element ele = elim (encode_get_type ele).intenc [
  | some bytes ↦ bytes
  | none ↦ encode_string ele
]
