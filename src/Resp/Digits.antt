-- ===== src/Resp/Digits.antt =====
-- The length loop reads back the number that `std::to_string` printed.
use native.Mathlib.Nat.{pow-suc}
use carrotdb.Base.{
  ℕ, zero, suc, ◌+◌, ◌*◌, ◌/◌, ◌%◌, ◌^◌, ◌<◌, ◌≡◌, refl, ap, ◌∙◌, true, false, List, [], ◌∷◌, ◌++◌,
  append_assoc, length, length-append, ltb, ◌==◌, arith, Bool-cases, inl, inr,
}
use carrotdb.Base.Decimal.{is_digit, print_digits, print_u64}
use carrotdb.Resp.Parser.{length_loop, add_digit}

-- One digit more.
length_loop-digit :
    (d : ℕ) (rest : List ℕ) (pos len : ℕ)
    → d < 10
    → len * 10 + d < 2 ^ 64
    → length_loop ((b'0' + d) ∷ rest) pos len ≡ length_loop rest (pos + 1) (len * 10 + d)
unfolding length_loop
length_loop-digit d rest pos len small fits =
    let cr : ((b'0' + d) == b'\r') ≡ false = ground arith in
    let digit : is_digit (b'0' + d) ≡ true = ground arith in
    let sum : add_digit len (b'0' + d) ≡ len * 10 + d = unfold add_digit in omega arith in
    rw (cr, digit, sum)

length_loop-digits :
    (k n : ℕ) (rest : List ℕ) (pos : ℕ)
    → n < 10 ^ suc k
    → n < 2 ^ 64
    → length_loop (print_digits k n ++ rest) pos 0
      ≡ length_loop rest (pos + length (print_digits k n)) n
unfolding print_digits
length_loop-digits zero n rest pos small fits =
    length_loop-digit n rest pos 0 (omega arith) (omega arith)
    ∙ ap (length_loop rest (pos + 1)) (omega arith)
length_loop-digits (suc k) n rest pos small fits = elim (Bool-cases (ltb n 10)) [
  | inl e ↦ rw e (
      length_loop-digit n rest pos 0 (ground arith) (omega arith)
      ∙ ap (length_loop rest (pos + 1)) (omega arith))
  | inr e ↦ rw e (
      ap (λ t. length_loop t pos 0) (append_assoc front last rest)
      ∙ length_loop-digits k (n / 10) (last ++ rest) pos (omega (arith, pow-suc 10 (suc k)))
          (omega arith)
      ∙ length_loop-digit (n % 10) rest (pos + length front) (n / 10) (omega arith) (omega arith)
      ∙ ap (length_loop rest (pos + length front + 1)) (omega arith)
      ∙ ap (λ p. length_loop rest p n) (omega (arith, length-append front last)))
]
  where
    front : List ℕ
    front = print_digits k (n / 10)

    last : List ℕ
    last = (b'0' + n % 10) ∷ []

length_loop-cr :
    (rest : List ℕ) (pos len : ℕ) → length_loop (b'\r' ∷ rest) pos len ≡ (true, pos, len)
unfolding length_loop
length_loop-cr rest pos len = refl

-- The loop reads a printed length up to the '\r' behind it.
pub length_loop-print :
    (n : ℕ) (rest : List ℕ) (pos : ℕ)
    → n < 2 ^ 64
    → length_loop (print_u64 n ++ (b'\r' ∷ rest)) pos 0 ≡ (true, pos + length (print_u64 n), n)
unfolding print_u64
length_loop-print n rest pos fits =
    length_loop-digits 19 n (b'\r' ∷ rest) pos (omega arith) fits
    ∙ length_loop-cr rest (pos + length (print_digits 19 n)) n

digits_start :
    (k n : ℕ)
    → n < 10 ^ suc k
    → (c : ℕ) × (t : List ℕ) × (print_digits k n ≡ c ∷ t) × (is_digit c ≡ true)
unfolding print_digits
digits_start zero n small = (b'0' + n, [], refl, ground arith)
digits_start (suc k) n small = elim (Bool-cases (ltb n 10)) [
  | inl e ↦ rw e (b'0' + n, [], refl, ground arith)
  | inr e ↦
      let (c, t, eq, digit) = digits_start k (n / 10) (omega (arith, pow-suc 10 (suc k))) in
      rw e (c, t ++ (b'0' + n % 10) ∷ [], ap (λ l. l ++ (b'0' + n % 10) ∷ []) eq, digit)
]

-- The first byte of a printed number is a digit.
pub print_u64-start :
    (n : ℕ) → n < 2 ^ 64 → (c : ℕ) × (t : List ℕ) × (print_u64 n ≡ c ∷ t) × (is_digit c ≡ true)
unfolding print_u64
print_u64-start n small = digits_start 19 n (omega arith)
