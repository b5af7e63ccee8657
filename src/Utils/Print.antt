-- ===== src/Utils/Print.antt =====
-- convert_positive_string_to_number reads back what `std::to_string` printed.
use native.Mathlib.Nat.{pow-suc}
use carrotdb.Base.{
  ℕ, zero, suc, ◌+◌, ◌-◌, ◌*◌, ◌/◌, ◌%◌, ◌^◌, ◌<◌, ◌≡◌, refl, sym, ap, ◌∙◌, inl, inr, true, List,
  [], ◌∷◌, ◌++◌, append_assoc, append-nil, some, ltb, arith, Bool-cases, All, All-append,
}
use carrotdb.Base.Decimal.{is_digit, print_digits, print_u64}
use carrotdb.Utils.{positive_loop, convert_positive_string_to_number}

positive_loop-digit :
    (d : ℕ) (rest : List ℕ) (n : ℕ)
    → d < 10
    → n * 10 + d < 2 ^ 64
    → positive_loop ((b'0' + d) ∷ rest) n ≡ positive_loop rest (n * 10 + d)
unfolding positive_loop
positive_loop-digit d rest n small fits =
    let digit : is_digit (b'0' + d) ≡ true = ground arith in
    let sum : (n * 10 % 2 ^ 64 + ((b'0' + d) - b'0')) % 2 ^ 64 ≡ n * 10 + d = omega arith in
    rw (digit, sum) refl

positive_loop-digits :
    (k n : ℕ) (rest : List ℕ)
    → n < 10 ^ suc k
    → n < 2 ^ 64
    → positive_loop (print_digits k n ++ rest) 0 ≡ positive_loop rest n
unfolding print_digits
positive_loop-digits zero n rest small fits =
    positive_loop-digit n rest 0 (omega arith) (omega arith) ∙ ap (positive_loop rest) (omega arith)
positive_loop-digits (suc k) n rest small fits = elim (Bool-cases (ltb n 10)) [
  | inl e ↦ rw e (
      positive_loop-digit n rest 0 (ground arith) (omega arith)
      ∙ ap (positive_loop rest) (omega arith))
  | inr e ↦ rw e (
      ap (λ t. positive_loop t 0) (append_assoc (print_digits k (n / 10)) last rest)
      ∙ positive_loop-digits k (n / 10) (last ++ rest) (omega (arith, pow-suc 10 (suc k)))
          (omega arith)
      ∙ positive_loop-digit (n % 10) rest (n / 10) (omega arith) (omega arith)
      ∙ ap (positive_loop rest) (omega arith))
]
  where
    last : List ℕ
    last = (b'0' + n % 10) ∷ []

loop_end : (n : ℕ) → positive_loop [] n ≡ some n
unfolding positive_loop
loop_end n = refl

-- convert_positive_string_to_number reads every number below 2 ^ 64 back from its decimal text.
pub convert_positive_string_to_number-print :
    (n : ℕ) → n < 2 ^ 64 → convert_positive_string_to_number (print_u64 n) ≡ some n
unfolding convert_positive_string_to_number print_u64
convert_positive_string_to_number-print n fits =
    ap (λ t. positive_loop t 0) (sym (append-nil (print_digits 19 n)))
    ∙ positive_loop-digits 19 n [] (omega arith) fits
    ∙ loop_end n

digits_only : (k n : ℕ) → n < 10 ^ suc k → All (λ c. is_digit c ≡ true) (print_digits k n)
unfolding print_digits
digits_only zero n small = (ground arith, tt)
digits_only (suc k) n small = elim (Bool-cases (ltb n 10)) [
  | inl e ↦ rw e (ground arith, tt)
  | inr e ↦ rw e (
      All-append (λ c. is_digit c ≡ true) (print_digits k (n / 10)) ((b'0' + n % 10) ∷ [])
        (digits_only k (n / 10) (omega (arith, pow-suc 10 (suc k)))) (ground arith, tt))
]

-- A printed number is digits only.
pub print_u64-digits : (n : ℕ) → n < 2 ^ 64 → All (λ c. is_digit c ≡ true) (print_u64 n)
unfolding print_u64
print_u64-digits n fits = digits_only 19 n (omega arith)
