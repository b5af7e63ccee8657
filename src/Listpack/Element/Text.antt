-- ===== src/Listpack/Element/Text.antt =====
-- A string element is read back as the bytes that were stored, and every element as its text.
use carrotdb.Base.{
  ℕ, ◌+◌, ◌*◌, ◌/◌, ◌%◌, ◌^◌, ◌<◌, ◌≡◌, ap, ◌∙◌, bit_and, bit_or, List, ◌∷◌, ◌++◌, Option, none,
  some, arith, inl, inr, length, take, drop, take-append, Option-cases,
}
use carrotdb.Base.Bits.{bit_or-shl, bit_or_comm, bit_and_low}
use carrotdb.Base.Int.{ℤ}
use carrotdb.Base.Decimal.{print_i64}
use carrotdb.Listpack.Number.{string_to_int64}
use carrotdb.Listpack.Number.RoundTrip.{string_to_int64-print}
use carrotdb.Listpack.Encoding.{encode_integer, encode_string, encode_get_type, encode_element}
use carrotdb.Listpack.Encoding.Bytes.{short, medium, long, text_format}
use carrotdb.Listpack.Encoding.Header.{
  is_7_bit_uint, is_13_bit_int, is_16_bit_int, is_24_bit_int, is_32_bit_int, is_64_bit_int,
  is_6_bit_str, is_12_bit_str, is_32_bit_str, is_7_bit_uint_lem, is_6_bit_str_lem,
  is_13_bit_int_lem, is_12_bit_str_lem, is_16_bit_int_lem, is_24_bit_int_lem, is_32_bit_int_lem,
  is_64_bit_int_lem,
}
use carrotdb.Listpack.Backlen.{encode_backlen_bytes}
use carrotdb.Listpack.Element.{
  text, integer, get_with_size, element_text, len_6_bit_str, len_12_bit_str, len_32_bit_str,
}
use carrotdb.Listpack.Element.Integer.{get_with_size-encode_integer}

pub len_6 : (n : ℕ) (r : List ℕ) → n < 64 → len_6_bit_str ((n + 128) ∷ r) ≡ n
unfolding len_6_bit_str
len_6 n r h = omega (arith, bit_and_low 6 (n + 128))

pub len_12 : (n : ℕ) (r : List ℕ) → n < 4096 → len_12_bit_str ((n / 256 + 224) ∷ (n % 256) ∷ r) ≡ n
unfolding len_12_bit_str
len_12 n r h = omega (
  arith,
  ap (λ (t : ℕ). bit_or (t * 2 ^ 8) (n % 256)) top,
  bit_or_comm (n / 256 * 2 ^ 8) (n % 256),
  bit_or-shl 8 (n % 256) (n / 256) (omega arith),
)
  where
    top : bit_and (n / 256 + 224) 0xF ≡ n / 256
    top = omega (arith, bit_and_low 4 (n / 256 + 224))

pub len_32 :
    (n h : ℕ) (r : List ℕ)
    → n < 2 ^ 32
    → len_32_bit_str (h ∷ (n % 256) ∷ (n / 256 % 256) ∷ (n / 65536 % 256) ∷ (n / 16777216) ∷ r) ≡ n
unfolding len_32_bit_str
len_32 n h r fits =
    rw
      (
        bit_or-shl 8 (n % 256) (n / 256 % 256) (omega arith),
        bit_or-shl 16 (n % 256 + n / 256 % 256 * 2 ^ 8) (n / 65536 % 256) (omega arith),
        bit_or-shl 24 (n % 256 + n / 256 % 256 * 2 ^ 8 + n / 65536 % 256 * 2 ^ 16) (n / 16777216)
            (omega arith),
      )
      (omega arith)

get_6 :
    (n : ℕ) (r : List ℕ)
    → n < 64
    → get_with_size ((n + 128) ∷ r) ≡ (text 1 n, some (1 + n + encode_backlen_bytes (n + 1)))
unfolding get_with_size
get_6 n r h = ground (arith, is_7_bit_uint_lem (n + 128), is_6_bit_str_lem (n + 128), len_6 n r h)

get_12 :
    (n : ℕ) (r : List ℕ)
    → n < 4096
    → get_with_size ((n / 256 + 224) ∷ (n % 256) ∷ r)
      ≡ (text 2 n, some (2 + n + encode_backlen_bytes (n + 2)))
unfolding get_with_size
get_12 n r h =
    let b = n / 256 + 224 in
    ground (
      arith,
      is_7_bit_uint_lem b,
      is_6_bit_str_lem b,
      is_13_bit_int_lem b,
      is_16_bit_int_lem b,
      is_24_bit_int_lem b,
      is_32_bit_int_lem b,
      is_64_bit_int_lem b,
      is_12_bit_str_lem b,
      len_12 n r h,
    )

get_32 :
    (n : ℕ) (r : List ℕ)
    → n < 2 ^ 32
    → get_with_size (0xF0 ∷ (n % 256) ∷ (n / 256 % 256) ∷ (n / 65536 % 256) ∷ (n / 16777216) ∷ r)
      ≡ (text 5 n, some (5 + n + encode_backlen_bytes (n + 5)))
unfolding get_with_size is_7_bit_uint is_6_bit_str is_13_bit_int is_16_bit_int is_24_bit_int
    is_32_bit_int is_64_bit_int is_12_bit_str is_32_bit_str
get_32 n r h = rw (len_32 n 0xF0 r h)

element_text_at_text :
    (p : List ℕ) (start count : ℕ) (e : Option ℕ)
    → get_with_size p ≡ (text start count, e)
    → element_text p ≡ take count (drop start p)
unfolding element_text
element_text_at_text p start count e h = rw (h, element_text)

element_text_at_integer :
    (p : List ℕ) (v : ℤ) (e : Option ℕ)
    → get_with_size p ≡ (integer v, e)
    → element_text p ≡ print_i64 v
unfolding element_text
element_text_at_integer p v e h = rw (h, element_text)

element_text-encode_string :
    (s r : List ℕ) → length s < 2 ^ 32 → element_text (encode_string s ++ r) ≡ s
element_text-encode_string s r h = elim (text_format s h) [
  | short a e ↦
      rw e (element_text_at_text _ 1 (length s) _ (get_6 (length s) (s ++ r) a) ∙ take-append s r)
  | medium a b e ↦
      rw e (element_text_at_text _ 2 (length s) _ (get_12 (length s) (s ++ r) b) ∙ take-append s r)
  | long a e ↦
      rw e (element_text_at_text _ 5 (length s) _ (get_32 (length s) (s ++ r) h) ∙ take-append s r)
]

pub encode_element_text :
    (s : List ℕ) → string_to_int64 s ≡ none → encode_element s ≡ encode_string s
unfolding encode_element encode_get_type
encode_element_text s e = rw (e, encode_get_type, encode_element)

pub encode_element_integer :
    (s : List ℕ) (v : ℤ) → string_to_int64 s ≡ some v → encode_element s ≡ encode_integer v
unfolding encode_element encode_get_type
encode_element_integer s v e = rw (e, encode_get_type, encode_element)

-- Whatever bytes a text shorter than 2 ^ 32 holds, numeric or not, reading the element that was
-- written for it gives those bytes back, with any bytes behind it.
pub element_text-encode_element :
    (s r : List ℕ) → length s < 2 ^ 32 → element_text (encode_element s ++ r) ≡ s
element_text-encode_element s r h = elim (Option-cases (string_to_int64 s)) [
  | inl e ↦ rw (encode_element_text s e) (element_text-encode_string s r h)
  | inr (v, e) ↦
      let t = string_to_int64-print s v e in
      rw (encode_element_integer s v e)
        (element_text_at_integer _ v _ (get_with_size-encode_integer v r t.1) ∙ t.0)
]
