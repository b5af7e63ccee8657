-- ===== src/Listpack/Element/Size.antt =====
-- The sizes that are computed from the header are those of the bytes that were written.
use carrotdb.Base.{
  ℕ, ◌+◌, ◌/◌, ◌%◌, ◌^◌, ◌≤◌, ◌<◌, ◌≡◌, refl, List, [], ◌∷◌, ◌++◌, arith, inl, inr, length, Bool,
  true, false, not, ◌==◌, Option, none, some, subst, sym, ap, Option-cases,
}
use carrotdb.Base.Int.{ℤ, pos, negsuc, ◌≤ℤ◌, IsInt64}
use carrotdb.Listpack.Number.{string_to_int64}
use carrotdb.Listpack.Number.RoundTrip.{string_to_int64-print}
use carrotdb.Listpack.Encoding.{within, encode_integer, encode_string, encode_element}
use carrotdb.Listpack.Encoding.Bytes.{
  small, bits_13, bits_16, bits_24, bits_32, bits_64, integer-Format, short, medium, long,
  text_format,
}
use carrotdb.Listpack.Encoding.Header.{
  is_7_bit_uint, is_13_bit_int, is_16_bit_int, is_24_bit_int, is_32_bit_int, is_64_bit_int,
  is_6_bit_str, is_12_bit_str, is_32_bit_str, is_7_bit_uint_lem, is_6_bit_str_lem,
  is_13_bit_int_lem, is_12_bit_str_lem, is_16_bit_int_lem, is_24_bit_int_lem, is_32_bit_int_lem,
  is_64_bit_int_lem,
}
use carrotdb.Listpack.Element.{
  current_encoded_size_unsafe, current_encoded_size_bytes, byte, lp_eof,
}
use carrotdb.Listpack.Element.Text.{
  len_6, len_12, len_32, encode_element_text, encode_element_integer,
}

-- The walk accepts every text but the integers outside the range of int32_t.
unfoldable pub is_short : Option ℤ → Bool
is_short none = true
is_short (some v) = within (negsuc 2147483647) (pos 2147483647) v

unfoldable pub is_walkable : List ℕ → Bool
is_walkable e = is_short (string_to_int64 e)

abbrev pub IsWalkable : List ℕ → Type 0
IsWalkable e = is_walkable e ≡ true

-- The facts that the walk needs of an element's bytes, whatever follows them.
pub record Sized (walks : Bool) (bs : List ℕ) (r : List ℕ) : Type 0 where
  pub size : current_encoded_size_unsafe (bs ++ r) ≡ length bs
  pub header : (current_encoded_size_bytes (bs ++ r) == 0) ≡ not walks
  pub header_le : current_encoded_size_bytes (bs ++ r) ≤ length bs
  pub not_eof : byte (bs ++ r) 0 < lp_eof

module _ (u : ℕ) (r : List ℕ) where
  Sized-small : u < 128 → Sized true (u ∷ []) r
  unfolding current_encoded_size_unsafe current_encoded_size_bytes
  Sized-small h = ground (arith, is_7_bit_uint_lem u)

  Sized-13 : u < 2 ^ 13 → Sized true ((u / 256 + 192) ∷ (u % 256) ∷ []) r
  unfolding current_encoded_size_unsafe current_encoded_size_bytes
  Sized-13 h = ground (arith, is_7_bit_uint_lem (u / 256 + 192), is_13_bit_int_lem (u / 256 + 192))

module _ (b1 b2 : ℕ) (r : List ℕ) where
  Sized-16 : Sized true (0xF1 ∷ b1 ∷ b2 ∷ []) r
  unfolding current_encoded_size_unsafe current_encoded_size_bytes is_7_bit_uint is_6_bit_str
      is_13_bit_int is_16_bit_int is_24_bit_int is_32_bit_int is_64_bit_int is_12_bit_str
      is_32_bit_str
  Sized-16 = record { size = refl; header = refl; header_le = omega arith; not_eof = omega arith }

module _ (b1 b2 b3 : ℕ) (r : List ℕ) where
  Sized-24 : Sized true (0xF2 ∷ b1 ∷ b2 ∷ b3 ∷ []) r
  unfolding current_encoded_size_unsafe current_encoded_size_bytes is_7_bit_uint is_6_bit_str
      is_13_bit_int is_16_bit_int is_24_bit_int is_32_bit_int is_64_bit_int is_12_bit_str
      is_32_bit_str
  Sized-24 = record { size = refl; header = refl; header_le = omega arith; not_eof = omega arith }

module _ (b1 b2 b3 b4 : ℕ) (r : List ℕ) where
  Sized-32 : Sized true (0xF3 ∷ b1 ∷ b2 ∷ b3 ∷ b4 ∷ []) r
  unfolding current_encoded_size_unsafe current_encoded_size_bytes is_7_bit_uint is_6_bit_str
      is_13_bit_int is_16_bit_int is_24_bit_int is_32_bit_int is_64_bit_int is_12_bit_str
      is_32_bit_str
  Sized-32 = record { size = refl; header = refl; header_le = omega arith; not_eof = omega arith }

module _ (b1 b2 b3 b4 b5 b6 b7 b8 : ℕ) (r : List ℕ) where
  Sized-64 : Sized false (0xF4 ∷ b1 ∷ b2 ∷ b3 ∷ b4 ∷ b5 ∷ b6 ∷ b7 ∷ b8 ∷ []) r
  unfolding current_encoded_size_unsafe current_encoded_size_bytes is_7_bit_uint is_6_bit_str
      is_13_bit_int is_16_bit_int is_24_bit_int is_32_bit_int is_64_bit_int is_12_bit_str
      is_32_bit_str
  Sized-64 = record { size = refl; header = refl; header_le = omega arith; not_eof = omega arith }

in_int32 :
    (v : ℤ)
    → negsuc 2147483647 ≤ℤ v
    → v ≤ℤ pos 2147483647
    → within (negsuc 2147483647) (pos 2147483647) v ≡ true
in_int32 v lo hi = ground arith

pub encode_integer-Sized :
    (v : ℤ) (r : List ℕ)
    → IsInt64 v
    → Sized (within (negsuc 2147483647) (pos 2147483647) v) (encode_integer v) r
encode_integer-Sized v r h = elim (integer-Format v h) [
  | small u fits s e ↦
      rw (e, in_int32 v (rw s (omega arith)) (rw s (omega arith))) (Sized-small u r fits)
  | bits_13 u fits s e ↦
      rw (e, in_int32 v (omega (arith, s)) (omega (arith, s))) (Sized-13 u r fits)
  | bits_16 u fits s e ↦ rw (e, in_int32 v (omega (arith, s)) (omega (arith, s))) (Sized-16 _ _ r)
  | bits_24 u fits s e ↦ rw (e, in_int32 v (omega (arith, s)) (omega (arith, s))) (Sized-24 _ _ _ r)
  | bits_32 u fits s e ↦
      rw (e, in_int32 v (omega (arith, s)) (omega (arith, s))) (Sized-32 _ _ _ _ r)
  | bits_64 u far fits s e ↦ rw (e, far) (Sized-64 _ _ _ _ _ _ _ _ r)
]

module _ (s r : List ℕ) where
  Sized-short : length s < 64 → Sized true ((length s + 128) ∷ s) r
  unfolding current_encoded_size_unsafe current_encoded_size_bytes
  Sized-short h = ground (
    arith,
    is_7_bit_uint_lem (length s + 128),
    is_6_bit_str_lem (length s + 128),
    is_13_bit_int_lem (length s + 128),
    is_16_bit_int_lem (length s + 128),
    is_24_bit_int_lem (length s + 128),
    is_32_bit_int_lem (length s + 128),
    is_64_bit_int_lem (length s + 128),
    len_6 (length s) (s ++ r) h,
  )

  Sized-medium :
      64 ≤ length s → length s < 4096 → Sized true ((length s / 256 + 224) ∷ (length s % 256) ∷ s) r
  unfolding current_encoded_size_unsafe current_encoded_size_bytes
  Sized-medium lo h =
      let b = length s / 256 + 224 in
      ground (
        arith,
        is_7_bit_uint_lem b,
        is_6_bit_str_lem b,
        is_13_bit_int_lem b,
        is_16_bit_int_lem b,
        is_24_bit_int_lem b,
        is_32_bit_int_lem b,
        is_64_bit_int_lem b,
        is_12_bit_str_lem b,
        len_12 (length s) (s ++ r) h,
      )

  Sized-long :
      length s + 5 < 2 ^ 32
      → Sized true
          (0xF0
            ∷ (length s % 256)
            ∷ (length s / 256 % 256)
            ∷ (length s / 65536 % 256)
            ∷ (length s / 16777216)
            ∷ s)
          r
  unfolding current_encoded_size_unsafe current_encoded_size_bytes is_7_bit_uint is_6_bit_str
      is_13_bit_int is_16_bit_int is_24_bit_int is_32_bit_int is_64_bit_int is_12_bit_str
      is_32_bit_str
  Sized-long h = record {
    size = rw (len_32 (length s) 0xF0 (s ++ r) (omega arith)) (omega arith);
    header = refl;
    header_le = omega arith;
    not_eof = omega arith;
  }

encode_string-Sized : (s r : List ℕ) → length s + 5 < 2 ^ 32 → Sized true (encode_string s) r
encode_string-Sized s r h = elim (text_format s (omega arith)) [
  | short a e ↦ rw e (Sized-short s r a)
  | medium a b e ↦ rw e (Sized-medium s r a b)
  | long a e ↦ rw e (Sized-long s r h)
]

pub encode_element-Sized :
    (s r : List ℕ) → length s + 5 < 2 ^ 32 → Sized (is_walkable s) (encode_element s) r
unfolding is_walkable is_short
encode_element-Sized s r h = elim (Option-cases (string_to_int64 s)) [
  | inl e ↦
      subst (λ w. Sized w (encode_element s) r) (sym (ap is_short e))
        (rw (encode_element_text s e) (encode_string-Sized s r h))
  | inr (v, e) ↦
      subst (λ w. Sized w (encode_element s) r) (sym (ap is_short e))
        (rw (encode_element_integer s v e)
          (encode_integer-Sized v r (string_to_int64-print s v e).1))
]

-- For every element of a text shorter than 2 ^ 32 - 5 bytes, with any bytes behind it:
-- lpCurrentEncodedSizeUnsafe reads the number of its bytes, and lpCurrentEncodedSizeBytes reads at
-- most that, and 0 exactly if the text is an integer outside int32_t.
pub encode_element-sizes :
    (s r : List ℕ)
    → length s + 5 < 2 ^ 32
    → (current_encoded_size_unsafe (encode_element s ++ r) ≡ length (encode_element s))
      × ((current_encoded_size_bytes (encode_element s ++ r) == 0) ≡ not (is_walkable s))
      × (current_encoded_size_bytes (encode_element s ++ r) ≤ length (encode_element s))
encode_element-sizes s r h =
    let facts = encode_element-Sized s r h in (facts.size, facts.header, facts.header_le)
