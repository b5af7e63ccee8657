-- ===== src/Base/Decimal.antt =====
-- Decimal text: what the standard library's `std::to_string` and `isdigit` give on ASCII bytes.
use Prim.Native.Nat.{ℕ, zero, suc, ◌+◌, ◌*◌, ◌/◌, ◌%◌, ◌^◌, ◌≤◌, ◌<◌}
use mathlib.Core.Path.{◌≡◌, refl}
use mathlib.Core.Bool.{Bool, ◌&&◌}
use mathlib.Core.List.{List, [], ◌∷◌, ◌++◌}
use native.Mathlib.Omega.{arith}
use native.Mathlib.Nat.{pow-suc}
use carrotdb.Base.Tests.{ltb, leb, if◌then◌else◌}
use carrotdb.Base.Int.{ℤ, pos, negsuc}

abbrev pub is_digit : ℕ → Bool
is_digit c = leb b'0' c && leb c b'9'

-- The digits of a number below 10 ^ (k + 1).
unfoldable pub print_digits : ℕ → ℕ → List ℕ
print_digits zero n = (b'0' + n) ∷ []
print_digits (suc k) n =
    let front = print_digits k (n / 10) in
    if ltb n 10 then (b'0' + n) ∷ [] else front ++ (b'0' + n % 10) ∷ []

-- Twenty digits are enough for every 64-bit number.
unfoldable pub print_u64 : ℕ → List ℕ
unfolding print_digits
print_u64 n = print_digits 19 n

unfoldable pub print_i64 : ℤ → List ℕ
unfolding print_u64
print_i64 (pos n) = print_u64 n
print_i64 (negsuc n) = b'-' ∷ print_u64 (suc n)

-- More fuel prints the same digits.
pub print_digits_fuel : (j k n : ℕ) → n < 10 ^ suc j → j ≤ k → print_digits k n ≡ print_digits j n
unfolding print_digits
print_digits_fuel zero zero n h le = refl
print_digits_fuel zero (suc k) n h le = ground arith
print_digits_fuel (suc j) zero n h le = absurd (omega arith)
print_digits_fuel (suc j) (suc k) n h le =
    ground (arith, print_digits_fuel j k (n / 10) (omega (arith, pow-suc 10 (suc j))) (omega arith))

-- One more digit behind a positive number.
pub print_digits_snoc :
    (k v d : ℕ)
    → 0 < v
    → d < 10
    → print_digits (suc k) (v * 10 + d) ≡ print_digits k v ++ (b'0' + d) ∷ []
unfolding print_digits
print_digits_snoc k v d h lt =
    let q : (v * 10 + d) / 10 ≡ v = omega arith in
    let r : (v * 10 + d) % 10 ≡ d = omega arith in ground (arith, q, r)

printed : print_i64 (negsuc 1229) ≡ b'-' ∷ b'1' ∷ b'2' ∷ b'3' ∷ b'0' ∷ []
unfolding print_i64
printed = refl
