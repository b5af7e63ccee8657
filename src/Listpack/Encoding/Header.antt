-- ===== src/Listpack/Encoding/Header.antt =====
-- The functions of src/listpack.h that classify a header byte, and what they come to on a byte.
use carrotdb.Base.{ℕ, ◌<◌, ◌≡◌, refl, Bool, true, false, ◌&&◌, bit_and, ltb, leb, ◌==◌}
use carrotdb.Base.Bits.{all_below, all_below_sound, agree, agree_sound}
use mathlib.Core.Bool.{beq}

unfoldable pub is_7_bit_uint : ℕ → Bool
is_7_bit_uint byte = bit_and 0x80 byte == 0

unfoldable pub is_13_bit_int : ℕ → Bool
is_13_bit_int byte = bit_and 0xE0 byte == 0xC0

unfoldable pub is_16_bit_int : ℕ → Bool
is_16_bit_int byte = bit_and 0xFF byte == 0xF1

unfoldable pub is_24_bit_int : ℕ → Bool
is_24_bit_int byte = bit_and 0xFF byte == 0xF2

unfoldable pub is_32_bit_int : ℕ → Bool
is_32_bit_int byte = bit_and 0xFF byte == 0xF3

unfoldable pub is_64_bit_int : ℕ → Bool
is_64_bit_int byte = bit_and 0xFF byte == 0xF4

unfoldable pub is_6_bit_str : ℕ → Bool
is_6_bit_str byte = bit_and 0xC0 byte == 0x80

unfoldable pub is_12_bit_str : ℕ → Bool
is_12_bit_str byte = bit_and 0xF0 byte == 0xE0

unfoldable pub is_32_bit_str : ℕ → Bool
is_32_bit_str byte = bit_and 0xFF byte == 0xF0

same_test : (p q : Bool) → beq p q ≡ true → p ≡ q
same_test true true h = refl
same_test true false h = cc
same_test false true h = cc
same_test false false h = refl

-- Each test is a range of bytes.
pub is_7_bit_uint_lem : (b : ℕ) → b < 256 → is_7_bit_uint b ≡ ltb b 128
unfolding is_7_bit_uint all_below
is_7_bit_uint_lem b h =
    same_test _ _ (all_below_sound 256 (λ x. beq (is_7_bit_uint x) (ltb x 128)) b refl h)

pub is_13_bit_int_lem : (b : ℕ) → b < 256 → is_13_bit_int b ≡ (leb 192 b && ltb b 224)
unfolding is_13_bit_int all_below
is_13_bit_int_lem b h =
    same_test _ _
      (all_below_sound 256 (λ x. beq (is_13_bit_int x) (leb 192 x && ltb x 224)) b refl h)

pub is_6_bit_str_lem : (b : ℕ) → b < 256 → is_6_bit_str b ≡ (leb 128 b && ltb b 192)
unfolding is_6_bit_str all_below
is_6_bit_str_lem b h =
    same_test _ _
      (all_below_sound 256 (λ x. beq (is_6_bit_str x) (leb 128 x && ltb x 192)) b refl h)

pub is_12_bit_str_lem : (b : ℕ) → b < 256 → is_12_bit_str b ≡ (leb 224 b && ltb b 240)
unfolding is_12_bit_str all_below
is_12_bit_str_lem b h =
    same_test _ _
      (all_below_sound 256 (λ x. beq (is_12_bit_str x) (leb 224 x && ltb x 240)) b refl h)

whole_byte : (b : ℕ) → b < 256 → bit_and 0xFF b ≡ b
unfolding agree
whole_byte = agree_sound 256 (λ b. bit_and 0xFF b) (λ b. b) refl

pub is_16_bit_int_lem : (b : ℕ) → b < 256 → is_16_bit_int b ≡ (b == 0xF1)
unfolding is_16_bit_int
is_16_bit_int_lem b h = rw (whole_byte b h)

pub is_24_bit_int_lem : (b : ℕ) → b < 256 → is_24_bit_int b ≡ (b == 0xF2)
unfolding is_24_bit_int
is_24_bit_int_lem b h = rw (whole_byte b h)

pub is_32_bit_int_lem : (b : ℕ) → b < 256 → is_32_bit_int b ≡ (b == 0xF3)
unfolding is_32_bit_int
is_32_bit_int_lem b h = rw (whole_byte b h)

pub is_64_bit_int_lem : (b : ℕ) → b < 256 → is_64_bit_int b ≡ (b == 0xF4)
unfolding is_64_bit_int
is_64_bit_int_lem b h = rw (whole_byte b h)

pub is_32_bit_str_lem : (b : ℕ) → b < 256 → is_32_bit_str b ≡ (b == 0xF0)
unfolding is_32_bit_str
is_32_bit_str_lem b h = rw (whole_byte b h)
