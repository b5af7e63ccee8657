-- ===== src/Base/Bits.antt =====
-- Shifts, masks and the `|` of disjoint fields, as arithmetic.
use Prim.Native.Nat.{
  ℕ, zero, suc, ◌+◌, ◌-◌, ◌*◌, ◌/◌, ◌%◌, ◌^◌, ◌≤◌, ◌<◌, min, max, bit_and, bit_or, digits,
  bit_and-bitwise, bit_or-bitwise,
}
use mathlib.Core.Path.{◌≡◌, refl, ap, ◌∙◌}
use mathlib.Core.Bool.{Bool, true, ◌&&◌}
use native.Mathlib.Omega.{arith}
use native.Mathlib.Nat.{
  pow-suc, one-le-pow, add-mul-mod_self_left, mod-eq_of_lt, mod-lt, div-add-mod,
}
use carrotdb.Base.Tests.{◌==◌, ==_iff}

infixl 70 ◌<<◌ ◌>>◌
abbrev pub ◌<<◌ : ℕ → ℕ → ℕ
x << k = x * 2 ^ k

abbrev pub ◌>>◌ : ℕ → ℕ → ℕ
x >> k = x / 2 ^ k

or_fuel : (f g x y : ℕ) → x ≤ f → x ≤ g → digits (λ d. d) max f x y ≡ digits (λ d. d) max g x y
or_fuel zero zero x y le le' = refl
or_fuel zero (suc g) (suc x) y le le' = absurd (omega arith)
or_fuel zero (suc g) zero y le le' = refl
or_fuel (suc f) zero (suc x) y le le' = absurd (omega arith)
or_fuel (suc f) zero zero y le le' = refl
or_fuel (suc f) (suc g) (suc x) y le le' =
    omega (arith, or_fuel f g (suc x / 2) (y / 2) (omega arith) (omega arith))
or_fuel (suc f) (suc g) zero y le le' = refl

zero-bit_or : (b : ℕ) → bit_or 0 b ≡ b
zero-bit_or b = bit_or-bitwise 0 b

or_digit : (x y : ℕ) → bit_or x y ≡ bit_or (x / 2) (y / 2) * 2 + max (x % 2) (y % 2)
or_digit zero y = omega (arith, zero-bit_or (y / 2), zero-bit_or y)
or_digit (suc x) y =
    let half = suc x / 2 in
    let enough = or_fuel x half half (y / 2) (omega arith) (omega arith) in
    omega (arith, enough, bit_or-bitwise half (y / 2), bit_or-bitwise (suc x) y)

or_comm_fuel : (n a b : ℕ) → a ≤ n → b ≤ n → bit_or a b ≡ bit_or b a
or_comm_fuel zero a b p q = let u : a ≡ 0 = omega arith in let v : b ≡ 0 = omega arith in rw (u, v)
or_comm_fuel (suc n) a b p q =
    omega (
      arith,
      or_digit a b,
      or_digit b a,
      or_comm_fuel n (a / 2) (b / 2) (omega arith) (omega arith),
    )

pub bit_or_comm : (a b : ℕ) → bit_or a b ≡ bit_or b a
bit_or_comm a b = or_comm_fuel (a + b) a b (omega arith) (omega arith)

and_fuel :
    (f g x y : ℕ) → x ≤ f → x ≤ g → digits (λ d. zero) min f x y ≡ digits (λ d. zero) min g x y
and_fuel zero zero x y le le' = refl
and_fuel zero (suc g) (suc x) y le le' = absurd (omega arith)
and_fuel zero (suc g) zero y le le' = refl
and_fuel (suc f) zero (suc x) y le le' = absurd (omega arith)
and_fuel (suc f) zero zero y le le' = refl
and_fuel (suc f) (suc g) (suc x) y le le' =
    omega (arith, and_fuel f g (suc x / 2) (y / 2) (omega arith) (omega arith))
and_fuel (suc f) (suc g) zero y le le' = refl

zero-bit_and : (b : ℕ) → bit_and 0 b ≡ 0
zero-bit_and b = bit_and-bitwise 0 b

and_digit : (x y : ℕ) → bit_and x y ≡ bit_and (x / 2) (y / 2) * 2 + min (x % 2) (y % 2)
and_digit zero y = omega (arith, zero-bit_and (y / 2), zero-bit_and y)
and_digit (suc x) y =
    let half = suc x / 2 in
    let enough = and_fuel x half half (y / 2) (omega arith) (omega arith) in
    omega (arith, enough, bit_and-bitwise half (y / 2), bit_and-bitwise (suc x) y)

-- `lo | (hi << k)` where `lo` fits below the shifted field.
pub bit_or-shl : (k lo hi : ℕ) → lo < 2 ^ k → bit_or lo (hi << k) ≡ lo + hi * 2 ^ k
bit_or-shl zero lo hi h = let z : lo ≡ 0 = omega arith in rw z (omega (arith, zero-bit_or (hi * 1)))
bit_or-shl (suc k) lo hi h = omega (
  arith,
  or_digit lo (hi * 2 ^ suc k),
  twice,
  ap (λ (t : ℕ). bit_or (lo / 2) t) half,
  bit_or-shl k (lo / 2) hi (omega (arith, pow-suc 2 k)),
)
  where
    twice : hi * 2 ^ suc k ≡ hi * 2 ^ k * 2
    twice = omega (arith, ap (λ (t : ℕ). hi * t) (pow-suc 2 k))

    half : hi * 2 ^ suc k / 2 ≡ hi * 2 ^ k
    half = omega (arith, twice)

and_zero_fuel : (n a : ℕ) → a ≤ n → bit_and a 0 ≡ 0
and_zero_fuel n zero h = refl
and_zero_fuel zero (suc a) h = absurd (omega arith)
and_zero_fuel (suc n) (suc a) h =
    omega (arith, and_digit (suc a) 0, and_zero_fuel n (suc a / 2) (omega arith))

mod_double : (m x : ℕ) → 0 < m → x % (m * 2) ≡ x / 2 % m * 2 + x % 2
mod_double m x h =
    ap (λ (t : ℕ). t % (m * 2)) split
    ∙ add-mul-mod_self_left (x / 2 % m * 2 + x % 2) (m * 2) (x / 2 / m)
    ∙ mod-eq_of_lt (omega (arith, mod-lt (x / 2) h))
  where
    split : x ≡ x / 2 % m * 2 + x % 2 + m * 2 * (x / 2 / m)
    split = omega (arith, div-add-mod (x / 2) m)

-- A mask of `k` low ones keeps the remainder by `2 ^ k`.
pub bit_and_low : (k x : ℕ) → bit_and x (2 ^ k - 1) ≡ x % 2 ^ k
bit_and_low zero x = omega (arith, and_zero_fuel x x (omega arith))
bit_and_low (suc k) x = omega (
  arith,
  and_digit x (2 ^ suc k - 1),
  pow-suc 2 k,
  one-le-pow k 2 (omega arith),
  bit_and_low k (x / 2),
  halves,
  ap (λ (t : ℕ). bit_and (x / 2) t) mask,
)
  where
    mask : (2 ^ suc k - 1) / 2 ≡ 2 ^ k - 1
    mask = omega (arith, pow-suc 2 k, one-le-pow k 2 (omega arith))

    halves : x % 2 ^ suc k ≡ x / 2 % 2 ^ k * 2 + x % 2
    halves =
        ap (λ (t : ℕ). x % t) (pow-suc 2 k)
        ∙ mod_double (2 ^ k) x (omega (arith, one-le-pow k 2 (omega arith)))

-- Over a small range every value is checked by evaluation.
unfoldable pub all_below : ℕ → (ℕ → Bool) → Bool
all_below (suc k) test = all_below k test && test k
all_below zero test = true

pub all_below_sound :
    (k : ℕ) (test : ℕ → Bool) (v : ℕ) → all_below k test ≡ true → v < k → test v ≡ true
unfolding all_below
all_below_sound (suc k) test v holds lt = ground (arith, all_below_sound k test v)
all_below_sound zero test v holds lt = absurd (omega arith)

-- Two functions that agree by evaluation below a bound.
unfoldable pub agree : ℕ → (ℕ → ℕ) → (ℕ → ℕ) → Bool
unfolding all_below
agree n f g = all_below n (λ x. f x == g x)

pub agree_sound : (n : ℕ) (f g : ℕ → ℕ) → agree n f g ≡ true → (x : ℕ) → x < n → f x ≡ g x
unfolding agree
agree_sound n f g h x lt = (==_iff _ _).0 (all_below_sound n _ x h lt)
