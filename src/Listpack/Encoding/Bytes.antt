-- ===== src/Listpack/Encoding/Bytes.antt =====
-- The encodings as plain bytes, without masks and shifts.
use carrotdb.Base.{
  ℕ, ◌+◌, ◌-◌, ◌/◌, ◌%◌, ◌^◌, ◌≤◌, ◌<◌, ◌≡◌, refl, true, false, bit_or, List, [], ◌∷◌, length,
  arith, inl, inr, Bool-cases,
}
use native.Mathlib.Decide.{dec_lt}
use carrotdb.Base.Bits.{bit_and_low, agree, agree_sound}
use carrotdb.Base.Int.{ℤ, pos, negsuc, pos_part, IsInt64, ◌≤ℤ◌}
use carrotdb.Listpack.Encoding.{
  encode_integer, encode_13, encode_16, encode_24, encode_32, encode_64, pattern_bits,
  encode_string, within,
}

top_three : (h : ℕ) → h < 32 → bit_or h 0xC0 ≡ h + 192
unfolding agree
top_three = agree_sound 32 (λ h. bit_or h 0xC0) (λ h. h + 192) refl

encode_13_lem : (u : ℕ) → u < 8192 → encode_13 u ≡ (u / 256 + 192) ∷ (u % 256) ∷ []
unfolding encode_13
encode_13_lem u h = ground (arith, bit_and_low 8 u, top_three (u / 256))

encode_16_lem : (u : ℕ) → u < 2 ^ 16 → encode_16 u ≡ 0xF1 ∷ (u % 256) ∷ (u / 256) ∷ []
unfolding encode_16
encode_16_lem u h = ground (arith, bit_and_low 8 u)

encode_24_lem :
    (u : ℕ) → u < 2 ^ 24 → encode_24 u ≡ 0xF2 ∷ (u % 256) ∷ (u / 256 % 256) ∷ (u / 65536) ∷ []
unfolding encode_24
encode_24_lem u h = ground (arith, bit_and_low 8 u, bit_and_low 8 (u / 256))

encode_32_lem :
    (u : ℕ)
    → u < 2 ^ 32
    → encode_32 u ≡ 0xF3 ∷ (u % 256) ∷ (u / 256 % 256) ∷ (u / 65536 % 256) ∷ (u / 16777216) ∷ []
unfolding encode_32
encode_32_lem u h =
    ground (arith, bit_and_low 8 u, bit_and_low 8 (u / 256), bit_and_low 8 (u / 65536))

encode_64_lem :
    (u : ℕ)
    → u < 2 ^ 64
    → encode_64 u
      ≡ 0xF4
        ∷ (u % 256)
        ∷ (u / 256 % 256)
        ∷ (u / 2 ^ 16 % 256)
        ∷ (u / 2 ^ 24 % 256)
        ∷ (u / 2 ^ 32 % 256)
        ∷ (u / 2 ^ 40 % 256)
        ∷ (u / 2 ^ 48 % 256)
        ∷ (u / 2 ^ 56)
        ∷ []
unfolding encode_64
encode_64_lem u h = ground (
  arith,
  bit_and_low 8 u,
  bit_and_low 8 (u / 2 ^ 8),
  bit_and_low 8 (u / 2 ^ 16),
  bit_and_low 8 (u / 2 ^ 24),
  bit_and_low 8 (u / 2 ^ 32),
  bit_and_low 8 (u / 2 ^ 40),
  bit_and_low 8 (u / 2 ^ 48),
)

-- A pattern of `w` bits stands for `v`.
abbrev pub Stands : ℕ → ℕ → ℤ → Type 0
Stands w u v =
    (u ≡ pattern_bits w v) × (negsuc (2 ^ (w - 1) - 1) ≤ℤ v) × (v ≤ℤ pos (2 ^ (w - 1) - 1))

-- The six formats of an integer, each with its bytes.
pub data Format (v : ℤ) : Type 0 where
  small : (u : ℕ) → u < 128 → v ≡ pos u → encode_integer v ≡ u ∷ [] → Format v
  bits_13 :
      (u : ℕ)
      → u < 8192
      → Stands 13 u v
      → encode_integer v ≡ (u / 256 + 192) ∷ (u % 256) ∷ []
      → Format v
  bits_16 :
      (u : ℕ)
      → u < 2 ^ 16
      → Stands 16 u v
      → encode_integer v ≡ 0xF1 ∷ (u % 256) ∷ (u / 256) ∷ []
      → Format v
  bits_24 :
      (u : ℕ)
      → u < 2 ^ 24
      → Stands 24 u v
      → encode_integer v ≡ 0xF2 ∷ (u % 256) ∷ (u / 256 % 256) ∷ (u / 65536) ∷ []
      → Format v
  bits_32 :
      (u : ℕ)
      → u < 2 ^ 32
      → Stands 32 u v
      → encode_integer v
        ≡ 0xF3 ∷ (u % 256) ∷ (u / 256 % 256) ∷ (u / 65536 % 256) ∷ (u / 16777216) ∷ []
      → Format v
  bits_64 :
      (u : ℕ)
      → within (negsuc 2147483647) (pos 2147483647) v ≡ false
      → u < 2 ^ 64
      → Stands 64 u v
      → encode_integer v
        ≡ 0xF4
          ∷ (u % 256)
          ∷ (u / 256 % 256)
          ∷ (u / 2 ^ 16 % 256)
          ∷ (u / 2 ^ 24 % 256)
          ∷ (u / 2 ^ 32 % 256)
          ∷ (u / 2 ^ 40 % 256)
          ∷ (u / 2 ^ 48 % 256)
          ∷ (u / 2 ^ 56)
          ∷ []
      → Format v

-- The tests in their order, each with the encoding that it chooses.
module _ (v : ℤ) where
  is_small : within (pos 0) (pos 127) v ≡ true → Format v
  unfolding encode_integer
  is_small a = small (pos_part v) (ground arith) (ground arith) (rw a (ground arith))

  is_13 : within (pos 0) (pos 127) v ≡ false → within (negsuc 4095) (pos 4095) v ≡ true → Format v
  unfolding encode_integer
  is_13 a b =
      let u = pattern_bits 13 v in
      let fits : u < 2 ^ 13 = ground arith in
      bits_13 u fits (refl, ground arith, ground arith) (rw (a, b) (encode_13_lem u fits))

  is_16 :
      within (pos 0) (pos 127) v ≡ false
      → within (negsuc 4095) (pos 4095) v ≡ false
      → within (negsuc 32767) (pos 32767) v ≡ true
      → Format v
  unfolding encode_integer
  is_16 a b c =
      let u = pattern_bits 16 v in
      let fits : u < 2 ^ 16 = ground arith in
      bits_16 u fits (refl, ground arith, ground arith) (rw (a, b, c) (encode_16_lem u fits))

  is_24 :
      within (pos 0) (pos 127) v ≡ false
      → within (negsuc 4095) (pos 4095) v ≡ false
      → within (negsuc 32767) (pos 32767) v ≡ false
      → within (negsuc 8388607) (pos 8388607) v ≡ true
      → Format v
  unfolding encode_integer
  is_24 a b c d =
      let u = pattern_bits 24 v in
      let fits : u < 2 ^ 24 = ground arith in
      bits_24 u fits (refl, ground arith, ground arith) (rw (a, b, c, d) (encode_24_lem u fits))

  is_32 :
      within (pos 0) (pos 127) v ≡ false
      → within (negsuc 4095) (pos 4095) v ≡ false
      → within (negsuc 32767) (pos 32767) v ≡ false
      → within (negsuc 8388607) (pos 8388607) v ≡ false
      → within (negsuc 2147483647) (pos 2147483647) v ≡ true
      → Format v
  unfolding encode_integer
  is_32 a b c d e =
      let u = pattern_bits 32 v in
      let fits : u < 2 ^ 32 = ground arith in
      bits_32 u fits (refl, ground arith, ground arith) (rw (a, b, c, d, e) (encode_32_lem u fits))

  is_64 :
      IsInt64 v
      → within (pos 0) (pos 127) v ≡ false
      → within (negsuc 4095) (pos 4095) v ≡ false
      → within (negsuc 32767) (pos 32767) v ≡ false
      → within (negsuc 8388607) (pos 8388607) v ≡ false
      → within (negsuc 2147483647) (pos 2147483647) v ≡ false
      → Format v
  unfolding encode_integer
  is_64 h a b c d e =
      let u = pattern_bits 64 v in
      let fits : u < 2 ^ 64 = ground arith in
      bits_64 u e fits (refl, ground arith, ground arith)
        (rw (a, b, c, d, e) (encode_64_lem u fits))

-- Every int64_t has one of the six formats.
pub integer-Format : (v : ℤ) → IsInt64 v → Format v
integer-Format v h = elim (Bool-cases (within (pos 0) (pos 127) v)) [
  | inl a ↦ is_small v a
  | inr a ↦ elim (Bool-cases (within (negsuc 4095) (pos 4095) v)) [
    | inl b ↦ is_13 v a b
    | inr b ↦ elim (Bool-cases (within (negsuc 32767) (pos 32767) v)) [
      | inl c ↦ is_16 v a b c
      | inr c ↦ elim (Bool-cases (within (negsuc 8388607) (pos 8388607) v)) [
        | inl d ↦ is_24 v a b c d
        | inr d ↦ elim (Bool-cases (within (negsuc 2147483647) (pos 2147483647) v)) [
          | inl e ↦ is_32 v a b c d e
          | inr e ↦ is_64 v h a b c d e
        ]
      ]
    ]
  ]
]

six_bits : (n : ℕ) → n < 64 → bit_or n 0x80 ≡ n + 128
unfolding agree
six_bits = agree_sound 64 (λ n. bit_or n 0x80) (λ n. n + 128) refl

four_bits : (n : ℕ) → n < 16 → bit_or n 0xE0 ≡ n + 224
unfolding agree
four_bits = agree_sound 16 (λ n. bit_or n 0xE0) (λ n. n + 224) refl

-- The three formats of a string, each with its bytes.
pub data TextFormat (s : List ℕ) : Type 0 where
  short : length s < 64 → encode_string s ≡ (length s + 128) ∷ s → TextFormat s
  medium :
      64 ≤ length s
      → length s < 4096
      → encode_string s ≡ (length s / 256 + 224) ∷ (length s % 256) ∷ s
      → TextFormat s
  long :
      4096 ≤ length s
      → encode_string s
        ≡ 0xF0
          ∷ (length s % 256)
          ∷ (length s / 256 % 256)
          ∷ (length s / 65536 % 256)
          ∷ (length s / 16777216)
          ∷ s
      → TextFormat s

pub text_format : (s : List ℕ) → length s < 2 ^ 32 → TextFormat s
unfolding encode_string
text_format s h = elim (dec_lt (length s) 64) [
  | yes a ↦ short a (ground (arith, six_bits (length s)))
  | no a ↦ elim (dec_lt (length s) 4096) [
    | yes b ↦
        medium (omega arith) b
          (ground (arith, four_bits (length s / 256), bit_and_low 8 (length s)))
    | no b ↦ long (omega arith) (
        ground (
          arith,
          bit_and_low 8 (length s),
          bit_and_low 8 (length s / 256),
          bit_and_low 8 (length s / 65536),
          bit_and_low 8 (length s / 16777216),
        ))
  ]
]
