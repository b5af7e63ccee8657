-- ===== src/Listpack/Element/Integer.antt =====
-- An integer element is read back as the value that was stored.
use carrotdb.Base.{
  ℕ, suc, ◌+◌, ◌-◌, ◌*◌, ◌/◌, ◌%◌, ◌^◌, ◌<◌, ◌≡◌, ap, List, ◌∷◌, ◌++◌, some, arith, length,
}
use carrotdb.Base.Bits.{bit_or-shl, bit_or_comm, bit_and_low}
use carrotdb.Base.Int.{ℤ, pos, IsInt64}
use carrotdb.Listpack.Encoding.{encode_integer}
use carrotdb.Listpack.Encoding.Bytes.{
  small, bits_13, bits_16, bits_24, bits_32, bits_64, integer-Format, Stands,
}
use carrotdb.Listpack.Encoding.Header.{
  is_7_bit_uint, is_13_bit_int, is_16_bit_int, is_24_bit_int, is_32_bit_int, is_64_bit_int,
  is_6_bit_str, is_7_bit_uint_lem, is_6_bit_str_lem, is_13_bit_int_lem,
}
use carrotdb.Listpack.Element.{
  integer, get_with_size, signed_value, le_bytes_2, le_bytes_3, le_bytes_4, le_bytes_8,
}

le_2 : (h a b : ℕ) (r : List ℕ) → a < 256 → le_bytes_2 (h ∷ a ∷ b ∷ r) ≡ a + b * 2 ^ 8
unfolding le_bytes_2
le_2 h a b r ha = bit_or-shl 8 a b ha

le_3 :
    (h a b c : ℕ) (r : List ℕ)
    → a < 256
    → b < 256
    → le_bytes_3 (h ∷ a ∷ b ∷ c ∷ r) ≡ a + b * 2 ^ 8 + c * 2 ^ 16
unfolding le_bytes_3
le_3 h a b c r ha hb = rw (le_2 h a b (c ∷ r) ha) (bit_or-shl 16 (a + b * 2 ^ 8) c (omega arith))

le_4 :
    (h a b c d : ℕ) (r : List ℕ)
    → a < 256
    → b < 256
    → c < 256
    → le_bytes_4 (h ∷ a ∷ b ∷ c ∷ d ∷ r) ≡ a + b * 2 ^ 8 + c * 2 ^ 16 + d * 2 ^ 24
unfolding le_bytes_4
le_4 h a b c d r ha hb hc =
    rw (le_3 h a b c (d ∷ r) ha hb) (bit_or-shl 24 (a + b * 2 ^ 8 + c * 2 ^ 16) d (omega arith))

le_8 :
    (h a b c d e f g i : ℕ) (r : List ℕ)
    → a < 256
    → b < 256
    → c < 256
    → d < 256
    → e < 256
    → f < 256
    → g < 256
    → le_bytes_8 (h ∷ a ∷ b ∷ c ∷ d ∷ e ∷ f ∷ g ∷ i ∷ r)
      ≡ a + b * 2 ^ 8 + c * 2 ^ 16 + d * 2 ^ 24 + e * 2 ^ 32 + f * 2 ^ 40 + g * 2 ^ 48 + i * 2 ^ 56
unfolding le_bytes_8
le_8 h a b c d e f g i r ha hb hc hd he hf hg =
    let s4 = a + b * 2 ^ 8 + c * 2 ^ 16 + d * 2 ^ 24 in
    rw
      (
        le_4 h a b c d (e ∷ f ∷ g ∷ i ∷ r) ha hb hc,
        bit_or-shl 32 s4 e (omega arith),
        bit_or-shl 40 (s4 + e * 2 ^ 32) f (omega arith),
        bit_or-shl 48 (s4 + e * 2 ^ 32 + f * 2 ^ 40) g (omega arith),
      )
      (bit_or-shl 56 (s4 + e * 2 ^ 32 + f * 2 ^ 40 + g * 2 ^ 48) i (omega arith))

module _ (u : ℕ) (v : ℤ) where
  signed_13 : u < 2 ^ 13 → Stands 13 u v → signed_value (2 ^ 12) 8191 u ≡ v
  unfolding signed_value
  signed_13 h s = ground arith

  signed_16 : u < 2 ^ 16 → Stands 16 u v → signed_value (2 ^ 15) (2 ^ 16 - 1) u ≡ v
  unfolding signed_value
  signed_16 h s = ground arith

  signed_24 : u < 2 ^ 24 → Stands 24 u v → signed_value (2 ^ 23) (2 ^ 24 - 1) u ≡ v
  unfolding signed_value
  signed_24 h s = ground arith

  signed_32 : u < 2 ^ 32 → Stands 32 u v → signed_value (2 ^ 31) (2 ^ 32 - 1) u ≡ v
  unfolding signed_value
  signed_32 h s = ground arith

  signed_64 : u < 2 ^ 64 → Stands 64 u v → signed_value (2 ^ 63) (2 ^ 64 - 1) u ≡ v
  unfolding signed_value
  signed_64 h s = ground arith

module _ (u : ℕ) (r : List ℕ) where
  get_small : u < 128 → get_with_size (u ∷ r) ≡ (integer (pos u), some 2)
  unfolding get_with_size signed_value
  get_small h = ground (arith, is_7_bit_uint_lem u, bit_and_low 7 u)

  get_13 :
      u < 2 ^ 13
      → get_with_size ((u / 256 + 192) ∷ (u % 256) ∷ r)
        ≡ (integer (signed_value (2 ^ 12) 8191 u), some 3)
  unfolding get_with_size
  get_13 h = ground (
    arith,
    is_7_bit_uint_lem (u / 256 + 192),
    is_6_bit_str_lem (u / 256 + 192),
    is_13_bit_int_lem (u / 256 + 192),
    bit_and_low 5 (u / 256 + 192),
    bit_or_comm (u / 256 * 2 ^ 8) (u % 256),
    bit_or-shl 8 (u % 256) (u / 256) (omega arith),
  )

  get_16 :
      u < 2 ^ 16
      → get_with_size (0xF1 ∷ (u % 256) ∷ (u / 256) ∷ r)
        ≡ (integer (signed_value (2 ^ 15) (2 ^ 16 - 1) u), some 4)
  unfolding get_with_size is_7_bit_uint is_6_bit_str is_13_bit_int is_16_bit_int is_24_bit_int
      is_32_bit_int is_64_bit_int
  get_16 h =
      rw (le_2 0xF1 (u % 256) (u / 256) r (omega arith))
        (ap (λ t. (integer (signed_value (2 ^ 15) (2 ^ 16 - 1) t), some 4)) whole)
    where
      whole : (u % 256) + (u / 256) * 2 ^ 8 ≡ u
      whole = omega arith

  get_24 :
      u < 2 ^ 24
      → get_with_size (0xF2 ∷ (u % 256) ∷ (u / 256 % 256) ∷ (u / 65536) ∷ r)
        ≡ (integer (signed_value (2 ^ 23) (2 ^ 24 - 1) u), some 5)
  unfolding get_with_size is_7_bit_uint is_6_bit_str is_13_bit_int is_16_bit_int is_24_bit_int
      is_32_bit_int is_64_bit_int
  get_24 h =
      rw (le_3 0xF2 (u % 256) (u / 256 % 256) (u / 65536) r (omega arith) (omega arith))
        (ap (λ t. (integer (signed_value (2 ^ 23) (2 ^ 24 - 1) t), some 5)) whole)
    where
      whole : (u % 256) + (u / 256 % 256) * 2 ^ 8 + (u / 65536) * 2 ^ 16 ≡ u
      whole = omega arith

  get_32 :
      u < 2 ^ 32
      → get_with_size (0xF3 ∷ (u % 256) ∷ (u / 256 % 256) ∷ (u / 65536 % 256) ∷ (u / 16777216) ∷ r)
        ≡ (integer (signed_value (2 ^ 31) (2 ^ 32 - 1) u), some 6)
  unfolding get_with_size is_7_bit_uint is_6_bit_str is_13_bit_int is_16_bit_int is_24_bit_int
      is_32_bit_int is_64_bit_int
  get_32 h =
      rw
        (le_4 0xF3 (u % 256) (u / 256 % 256) (u / 65536 % 256) (u / 16777216) r (omega arith)
          (omega arith) (omega arith))
        (ap (λ t. (integer (signed_value (2 ^ 31) (2 ^ 32 - 1) t), some 6)) whole)
    where
      whole :
          (u % 256) + (u / 256 % 256) * 2 ^ 8 + (u / 65536 % 256) * 2 ^ 16 + (u / 16777216) * 2 ^ 24
          ≡ u
      whole = omega arith

  get_64 :
      u < 2 ^ 64
      → get_with_size (
          0xF4
          ∷ (u % 256)
          ∷ (u / 256 % 256)
          ∷ (u / 2 ^ 16 % 256)
          ∷ (u / 2 ^ 24 % 256)
          ∷ (u / 2 ^ 32 % 256)
          ∷ (u / 2 ^ 40 % 256)
          ∷ (u / 2 ^ 48 % 256)
          ∷ (u / 2 ^ 56)
          ∷ r)
        ≡ (integer (signed_value (2 ^ 63) (2 ^ 64 - 1) u), some 10)
  unfolding get_with_size is_7_bit_uint is_6_bit_str is_13_bit_int is_16_bit_int is_24_bit_int
      is_32_bit_int is_64_bit_int
  get_64 h =
      rw
        (le_8 0xF4 (u % 256) (u / 256 % 256) (u / 2 ^ 16 % 256) (u / 2 ^ 24 % 256)
          (u / 2 ^ 32 % 256) (u / 2 ^ 40 % 256) (u / 2 ^ 48 % 256) (u / 2 ^ 56) r (omega arith)
          (omega arith) (omega arith) (omega arith) (omega arith) (omega arith) (omega arith))
        (ap (λ t. (integer (signed_value (2 ^ 63) (2 ^ 64 - 1) t), some 10)) whole)
    where
      whole :
          (u % 256)
            + (u / 256 % 256) * 2 ^ 8
            + (u / 2 ^ 16 % 256) * 2 ^ 16
            + (u / 2 ^ 24 % 256) * 2 ^ 24
            + (u / 2 ^ 32 % 256) * 2 ^ 32
            + (u / 2 ^ 40 % 256) * 2 ^ 40
            + (u / 2 ^ 48 % 256) * 2 ^ 48
            + (u / 2 ^ 56) * 2 ^ 56
          ≡ u
      whole = omega arith

-- lpGetWithSize reads every integer of int64_t back from its encoding, with any bytes behind it,
-- and reports the size of the encoding and of its one byte of length.
pub get_with_size-encode_integer :
    (v : ℤ) (r : List ℕ)
    → IsInt64 v
    → get_with_size (encode_integer v ++ r) ≡ (integer v, some (suc (length (encode_integer v))))
get_with_size-encode_integer v r h = elim (integer-Format v h) [
  | small u fits s e ↦ rw (e, s) (get_small u r fits)
  | bits_13 u fits s e ↦ rw (e, get_13 u r fits, signed_13 u v fits s)
  | bits_16 u fits s e ↦ rw (e, get_16 u r fits, signed_16 u v fits s)
  | bits_24 u fits s e ↦ rw (e, get_24 u r fits, signed_24 u v fits s)
  | bits_32 u fits s e ↦ rw (e, get_32 u r fits, signed_32 u v fits s)
  | bits_64 u far fits s e ↦ rw (e, get_64 u r fits, signed_64 u v fits s)
]
