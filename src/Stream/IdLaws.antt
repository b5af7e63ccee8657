-- ===== src/Stream/IdLaws.antt =====
-- The binary key of a stream id: it is read back, and its byte order is the order of the ids.
use native.Mathlib.Nat.{
  pow-suc, one-le-pow, div-div-eq-div-mul, le-div_iff_mul-le, div-mul-le_self, div-one,
}
use mathlib.Core.Path.{ap₂}
use carrotdb.Base.{
  ℕ, zero, suc, ◌/◌, ◌%◌, ◌^◌, ◌≤◌, ◌<◌, bit_and, bit_or, ◌≡◌, refl, sym, ap, ◌∙◌, Bool-cases, inl,
  inr, append-nil, Bool, true, false, List, [], ◌∷◌, ◌++◌, some, length, ltb, if◌then◌else◌, arith,
}
use carrotdb.Base.Bits.{◌<<◌, bit_or_comm, bit_or-shl, bit_and_low}
use carrotdb.Base.Bytes.{less}
use carrotdb.Stream.Id.{
  StreamId, IsU64, big_endian, to_binary, read_big_endian, from_binary, is_greater,
}

-- The low bytes of a number, the most significant first.
abbrev bytes_of : ℕ → ℕ → List ℕ
bytes_of zero n = []
bytes_of (suc k) n = (n / 256 ^ k % 256) ∷ bytes_of k n

big_endian-bytes_of : (n : ℕ) → big_endian n ≡ bytes_of 8 n
unfolding big_endian
big_endian-bytes_of n =
    rw
      (
        bit_and_low 8 (n / 2 ^ 56),
        bit_and_low 8 (n / 2 ^ 48),
        bit_and_low 8 (n / 2 ^ 40),
        bit_and_low 8 (n / 2 ^ 32),
        bit_and_low 8 (n / 2 ^ 24),
        bit_and_low 8 (n / 2 ^ 16),
        bit_and_low 8 (n / 2 ^ 8),
        bit_and_low 8 n,
        div-one n,
      )
      refl

-- The order of two numbers, and where they are equal something else.
abbrev first_of : ℕ → ℕ → Bool → Bool
first_of m n r = if ltb m n then true else if ltb n m then false else r

div_mono : (m n p : ℕ) → 0 < p → m ≤ n → m / p ≤ n / p
div_mono m n p pos le = (le-div_iff_mul-le pos).1 (omega (arith, div-mul-le_self m p))

div_lt : (m n p : ℕ) → 0 < p → m / p < n / p → m < n
div_lt m n p pos lt = elim (Bool-cases (ltb m n)) [
  | inl e ↦ ground arith
  | inr e ↦ absurd (omega (arith, div_mono n m p pos (ground arith)))
]

last_one : (m n : ℕ) → first_of m n (less [] []) ≡ ltb m n
unfolding less
last_one m n = ground arith

first_byte_step :
    (m n u v : ℕ) (r s : Bool)
    → u / 256 ≡ v / 256
    → (u < v → m < n)
    → (v < u → n < m)
    → (u ≡ v → r ≡ first_of m n s)
    → first_of (u % 256) (v % 256) r ≡ first_of m n s
first_byte_step m n u v r s h up down here = ground arith

less-bytes_of :
    (k m n : ℕ) (x y : List ℕ)
    → m / 256 ^ k ≡ n / 256 ^ k
    → less (bytes_of k m ++ x) (bytes_of k n ++ y) ≡ first_of m n (less x y)
unfolding less
less-bytes_of zero m n x y h = let e : m ≡ n = sym (div-one m) ∙ h ∙ div-one n in ground arith
less-bytes_of (suc k) m n x y h =
    let p = 256 ^ k in
    let pos : 0 < p = one-le-pow k 256 (omega arith) in
    let upper : m / p / 256 ≡ n / p / 256 =
      div-div-eq-div-mul m p 256
      ∙ ap (λ d. m / d) (sym (pow-suc 256 k))
      ∙ h
      ∙ ap (λ d. n / d) (pow-suc 256 k)
      ∙ sym (div-div-eq-div-mul n p 256) in
    first_byte_step m n (m / p) (n / p) (less (bytes_of k m ++ x) (bytes_of k n ++ y)) (less x y)
      upper (div_lt m n p pos) (div_lt n m p pos) (λ e. less-bytes_of k m n x y e)

less-big_endian :
    (m n : ℕ) (x y : List ℕ)
    → m < 2 ^ 64
    → n < 2 ^ 64
    → less (big_endian m ++ x) (big_endian n ++ y) ≡ first_of m n (less x y)
less-big_endian m n x y hm hn =
    rw (big_endian-bytes_of m, big_endian-bytes_of n) (less-bytes_of 8 m n x y (omega arith))

-- The 16-byte keys of two ids whose numbers fit 64 bits compare, as byte strings, exactly as
-- isGreater compares the ids.
pub less-to_binary :
    (s t : StreamId) → IsU64 s → IsU64 t → less (to_binary s) (to_binary t) ≡ is_greater t s
unfolding to_binary is_greater
less-to_binary s t hs ht =
    less-big_endian s.ms t.ms (big_endian s.seq) (big_endian t.seq) hs.0 ht.0
    ∙ ap (first_of s.ms t.ms) (
        ap₂ less (sym (append-nil (big_endian s.seq))) (sym (append-nil (big_endian t.seq)))
        ∙ less-big_endian s.seq t.seq [] [] hs.1 ht.1
        ∙ last_one s.seq t.seq)

-- The bytes of a number, joined again from the most significant down.
joined :
    (n : ℕ)
    → n < 2 ^ 64
    → bit_or
        (bit_or
          (bit_or
            (bit_or
              (bit_or
                (bit_or
                  (bit_or (n / 2 ^ 56 % 256 << 56) (n / 2 ^ 48 % 256 << 48))
                  (n / 2 ^ 40 % 256 << 40))
                (n / 2 ^ 32 % 256 << 32))
              (n / 2 ^ 24 % 256 << 24))
            (n / 2 ^ 16 % 256 << 16))
          (n / 2 ^ 8 % 256 << 8))
        (n % 256)
      ≡ n
joined n h =
    let top : n / 2 ^ 56 % 256 ≡ n / 2 ^ 56 = omega arith in
    let j7 : bit_or (n / 2 ^ 56 << 56) (n / 2 ^ 48 % 256 << 48) ≡ n / 2 ^ 48 << 48 =
      bit_or_comm (n / 2 ^ 56 << 56) (n / 2 ^ 48 % 256 << 48)
      ∙ bit_or-shl 56 (n / 2 ^ 48 % 256 << 48) (n / 2 ^ 56) (omega arith)
      ∙ omega arith in
    let j6 : bit_or (n / 2 ^ 48 << 48) (n / 2 ^ 40 % 256 << 40) ≡ n / 2 ^ 40 << 40 =
      bit_or_comm (n / 2 ^ 48 << 48) (n / 2 ^ 40 % 256 << 40)
      ∙ bit_or-shl 48 (n / 2 ^ 40 % 256 << 40) (n / 2 ^ 48) (omega arith)
      ∙ omega arith in
    let j5 : bit_or (n / 2 ^ 40 << 40) (n / 2 ^ 32 % 256 << 32) ≡ n / 2 ^ 32 << 32 =
      bit_or_comm (n / 2 ^ 40 << 40) (n / 2 ^ 32 % 256 << 32)
      ∙ bit_or-shl 40 (n / 2 ^ 32 % 256 << 32) (n / 2 ^ 40) (omega arith)
      ∙ omega arith in
    let j4 : bit_or (n / 2 ^ 32 << 32) (n / 2 ^ 24 % 256 << 24) ≡ n / 2 ^ 24 << 24 =
      bit_or_comm (n / 2 ^ 32 << 32) (n / 2 ^ 24 % 256 << 24)
      ∙ bit_or-shl 32 (n / 2 ^ 24 % 256 << 24) (n / 2 ^ 32) (omega arith)
      ∙ omega arith in
    let j3 : bit_or (n / 2 ^ 24 << 24) (n / 2 ^ 16 % 256 << 16) ≡ n / 2 ^ 16 << 16 =
      bit_or_comm (n / 2 ^ 24 << 24) (n / 2 ^ 16 % 256 << 16)
      ∙ bit_or-shl 24 (n / 2 ^ 16 % 256 << 16) (n / 2 ^ 24) (omega arith)
      ∙ omega arith in
    let j2 : bit_or (n / 2 ^ 16 << 16) (n / 2 ^ 8 % 256 << 8) ≡ n / 2 ^ 8 << 8 =
      bit_or_comm (n / 2 ^ 16 << 16) (n / 2 ^ 8 % 256 << 8)
      ∙ bit_or-shl 16 (n / 2 ^ 8 % 256 << 8) (n / 2 ^ 16) (omega arith)
      ∙ omega arith in
    let j1 : bit_or (n / 2 ^ 8 << 8) (n % 256) ≡ n =
      bit_or_comm (n / 2 ^ 8 << 8) (n % 256)
      ∙ bit_or-shl 8 (n % 256) (n / 2 ^ 8) (omega arith)
      ∙ omega arith in
    rw (top, j7, j6, j5, j4, j3, j2) j1

low_bytes :
    (n : ℕ)
    → (bit_and (n / 2 ^ 56) 255 ≡ n / 2 ^ 56 % 256)
      × (bit_and (n / 2 ^ 48) 255 ≡ n / 2 ^ 48 % 256)
      × (bit_and (n / 2 ^ 40) 255 ≡ n / 2 ^ 40 % 256)
      × (bit_and (n / 2 ^ 32) 255 ≡ n / 2 ^ 32 % 256)
      × (bit_and (n / 2 ^ 24) 255 ≡ n / 2 ^ 24 % 256)
      × (bit_and (n / 2 ^ 16) 255 ≡ n / 2 ^ 16 % 256)
      × (bit_and (n / 2 ^ 8) 255 ≡ n / 2 ^ 8 % 256)
      × (bit_and n 255 ≡ n % 256)
low_bytes n = (
  bit_and_low 8 (n / 2 ^ 56),
  bit_and_low 8 (n / 2 ^ 48),
  bit_and_low 8 (n / 2 ^ 40),
  bit_and_low 8 (n / 2 ^ 32),
  bit_and_low 8 (n / 2 ^ 24),
  bit_and_low 8 (n / 2 ^ 16),
  bit_and_low 8 (n / 2 ^ 8),
  bit_and_low 8 n,
)

read_ms : (s : StreamId) → s.ms < 2 ^ 64 → read_big_endian (to_binary s) 0 ≡ s.ms
unfolding to_binary read_big_endian big_endian
read_ms s h =
    let (b7, b6, b5, b4, b3, b2, b1, b0) = low_bytes s.ms in
    rw (b7, b6, b5, b4, b3, b2, b1, b0) (joined s.ms h)

read_seq : (s : StreamId) → s.seq < 2 ^ 64 → read_big_endian (to_binary s) 8 ≡ s.seq
unfolding to_binary read_big_endian big_endian
read_seq s h =
    let (b7, b6, b5, b4, b3, b2, b1, b0) = low_bytes s.seq in
    rw (b7, b6, b5, b4, b3, b2, b1, b0) (joined s.seq h)

long_enough : (s : StreamId) → length (to_binary s) ≡ 16
unfolding to_binary big_endian
long_enough s = refl

-- An id whose numbers fit 64 bits is read back from its 16-byte key, and the assertion on the key's
-- size holds.
pub from_binary-to_binary : (s : StreamId) → IsU64 s → from_binary (to_binary s) ≡ some s
unfolding from_binary
from_binary-to_binary s h = rw (long_enough s, read_ms s h.0, read_seq s h.1) refl
