-- ===== src/Listpack/Number/RoundTrip.antt =====
-- The texts that lpStringToInt64 accepts are the ones that std::to_string prints.
use carrotdb.Base.{
  ℕ, suc, ◌+◌, ◌-◌, ◌*◌, ◌%◌, ◌^◌, ◌≤◌, ◌<◌, ◌≡◌, refl, sym, ap, ◌∙◌, Bool, true, false, List, [],
  ◌∷◌, ◌++◌, append-nil, append_assoc, Option, none, some, length, ◌==◌, arith, Bool-cases, inl,
  inr, ◌⊎◌, subst,
}
use carrotdb.Base.Int.{ℤ, pos, negsuc, IsInt64}
use carrotdb.Base.Decimal.{print_digits, print_u64, print_i64, print_digits_fuel, print_digits_snoc}
use carrotdb.Listpack.Number.{
  digits_loop, finish, first_digit, is_zero_text, sign, string_to_int64, uint64_max, u64_mod,
}
use native.Mathlib.Nat.{pow-suc}

-- One digit read, in plain arithmetic.
digits_loop_step :
    (v c w : ℕ) (s : List ℕ)
    → digits_loop v (c ∷ s) ≡ some (w, [])
    → (48 ≤ c)
      × (c ≤ 57)
      × (v * 10 + (c - 48) ≤ uint64_max)
      × (digits_loop (v * 10 + (c - 48)) s ≡ some (w, []))
unfolding digits_loop
digits_loop_step v c w s h = (a.0, a.1, a.2, rw no_wrap at a.3)
  where
    a :
        (48 ≤ c)
        × (c ≤ 57)
        × (v * 10 + (c - 48) ≤ uint64_max)
        × (digits_loop ((v * 10 % u64_mod + (c - 48)) % u64_mod) s ≡ some (w, []))
    a = ground arith

    no_wrap : (v * 10 % u64_mod + (c - 48)) % u64_mod ≡ v * 10 + (c - 48)
    no_wrap = omega (arith, a.2)

-- What the loop has read prints as `front`, and the digits that it reads join it.
digits_loop_prints :
    (s front : List ℕ) (k v w : ℕ)
    → 0 < v
    → v < 10 ^ suc k
    → v ≤ uint64_max
    → print_digits k v ≡ front
    → digits_loop v s ≡ some (w, [])
    → (print_digits (k + length s) w ≡ front ++ s)
      × (0 < w)
      × (w < 10 ^ suc (k + length s))
      × (w ≤ uint64_max)
digits_loop_prints [] front k v w p small fits e h =
    let same : v ≡ w = unfold digits_loop in ground arith in
    let k0 : k + 0 ≡ k = omega arith in rw (← same, k0, append-nil) (e, p, small, fits)
digits_loop_prints (c ∷ s) front k v w p small fits e h =
    let (lo, hi, fits', h') = digits_loop_step v c w s h in
    let d : 48 + (c - 48) ≡ c = omega arith in
    let next : print_digits (suc k) (v * 10 + (c - 48)) ≡ front ++ c ∷ [] =
      print_digits_snoc k v (c - 48) p (omega arith) ∙ rw (e, d) in
    let r =
      digits_loop_prints s (front ++ c ∷ []) (suc k) (v * 10 + (c - 48)) w (omega arith)
        (omega (arith, pow-suc 10 (suc k))) fits' next h' in
    let shift : suc k + length s ≡ k + suc (length s) = omega arith in
    (rw shift at r.0 ∙ append_assoc front (c ∷ []) s, r.1, rw shift at r.2, r.3)

-- A whole run of digits, the first one not 0.
digits_print :
    (c : ℕ) (s : List ℕ) (w : ℕ)
    → 49 ≤ c
    → c ≤ 57
    → length s ≤ 19
    → digits_loop (c - 48) s ≡ some (w, [])
    → (print_u64 w ≡ c ∷ s) × (0 < w)
digits_print c s w lo hi len e =
    let d : 48 + (c - 48) ≡ c = omega arith in
    let one : print_digits 0 (c - 48) ≡ c ∷ [] = unfold print_digits in rw d in
    let r =
      digits_loop_prints s (c ∷ []) 0 (c - 48) w (omega arith) (omega arith) (omega arith) one e in
    let zero_add : 0 + length s ≡ length s = omega arith in
    let all = rw zero_add at r.0 in
    (unfold print_u64 in (print_digits_fuel (length s) 19 w (rw zero_add at r.2) len ∙ all), r.1)

finish_inv :
    (negative : Bool) (o : Option (ℕ × List ℕ)) (v : ℤ)
    → finish negative o ≡ some v
    → (w : ℕ) × (o ≡ some (w, [])) × (finish negative (some (w, [])) ≡ some v)
unfolding finish
finish_inv true none v h = cc
finish_inv true (some (w, [])) v h = (w, refl, h)
finish_inv true (some (w, c ∷ s)) v h = cc
finish_inv false none v h = cc
finish_inv false (some (w, [])) v h = (w, refl, h)
finish_inv false (some (w, c ∷ s)) v h = cc

first_digit_prints :
    (negative : Bool) (s : List ℕ) (v : ℤ)
    → length s ≤ 20
    → first_digit negative s ≡ some v
    → (w : ℕ) × (print_u64 w ≡ s) × (0 < w) × (finish negative (some (w, [])) ≡ some v)
unfolding first_digit
first_digit_prints negative [] v h e = cc
first_digit_prints negative (c ∷ s) v h e =
    let a : (49 ≤ c) × (c ≤ 57) × (finish negative (digits_loop (c - 48) s) ≡ some v) =
      ground arith in
    let (w, e', f) = finish_inv negative (digits_loop (c - 48) s) v a.2 in
    let (p, q) = digits_print c s w a.0 a.1 (omega arith) e' in (w, p, q, f)

finish_negative :
    (w : ℕ) (v : ℤ)
    → 0 < w
    → finish true (some (w, [])) ≡ some v
    → (v ≡ negsuc (w - 1)) × (suc (w - 1) ≡ w) × (w ≤ 2 ^ 63)
unfolding finish
finish_negative w v p h = ground arith

finish_positive :
    (w : ℕ) (v : ℤ) → finish false (some (w, [])) ≡ some v → (v ≡ pos w) × (suc w ≤ 2 ^ 63)
unfolding finish
finish_positive w v h = ground arith

negative_text :
    (w : ℕ) (s : List ℕ) (v : ℤ)
    → print_u64 w ≡ s
    → 0 < w
    → finish true (some (w, [])) ≡ some v
    → (print_i64 v ≡ 45 ∷ s) × IsInt64 v
unfolding print_i64
negative_text w s v p q f =
    let r = finish_negative w v q f in
    subst (λ u. (print_i64 u ≡ 45 ∷ s) × IsInt64 u) (sym r.0)
      (ap (λ t. 45 ∷ t) (ap print_u64 r.1 ∙ p), (omega (arith, r.1, r.2), omega arith))

positive_text :
    (w : ℕ) (s : List ℕ) (v : ℤ)
    → print_u64 w ≡ s
    → finish false (some (w, [])) ≡ some v
    → (print_i64 v ≡ s) × IsInt64 v
unfolding print_i64
positive_text w s v p f =
    let r = finish_positive w v f in
    subst (λ u. (print_i64 u ≡ s) × IsInt64 u) (sym r.0) (p, (omega arith, r.1))

sign_dash :
    (c : ℕ) (s : List ℕ) → (c == b'-') ≡ true → (sign (c ∷ s) ≡ first_digit true s) × (45 ≡ c)
unfolding sign
sign_dash c s h = (rw h, ground arith)

sign_none : (c : ℕ) (s : List ℕ) → (c == b'-') ≡ false → sign (c ∷ s) ≡ first_digit false (c ∷ s)
unfolding sign
sign_none c s h = rw h

sign_prints : (s : List ℕ) (v : ℤ) → length s ≤ 20 → sign s ≡ some v → (print_i64 v ≡ s) × IsInt64 v
sign_prints [] v h e = unfold sign in cc
sign_prints (c ∷ s) v h e = elim (Bool-cases (c == b'-')) [
  | inl y ↦
      let d = sign_dash c s y in
      let (w, p, q, f) = first_digit_prints true s v (omega arith) (sym d.0 ∙ e) in
      subst (λ b. (print_i64 v ≡ b ∷ s) × IsInt64 v) d.1 (negative_text w s v p q f)
  | inr n ↦
      let (w, p, q, f) = first_digit_prints false (c ∷ s) v h (sym (sign_none c s n) ∙ e) in
      positive_text w (c ∷ s) v p f
]

zero_text_prints : (s : List ℕ) → is_zero_text s ≡ true → print_i64 (pos 0) ≡ s
unfolding print_i64
zero_text_prints [] h = cc
zero_text_prints (c ∷ []) h = ground arith
zero_text_prints (c ∷ d ∷ s) h = cc

-- The three ways through the function.
string_to_int64_cases :
    (s : List ℕ) (v : ℤ)
    → string_to_int64 s ≡ some v
    → ((is_zero_text s ≡ true) × (pos 0 ≡ v)) ⊎ ((length s ≤ 20) × (sign s ≡ some v))
unfolding string_to_int64
string_to_int64_cases s v h = ground arith

-- A byte string that lpStringToInt64 takes for an integer is the decimal text that is printed for
-- that integer, and the integer fits int64_t.
pub string_to_int64-print :
    (s : List ℕ) (v : ℤ) → string_to_int64 s ≡ some v → (print_i64 v ≡ s) × IsInt64 v
string_to_int64-print s v h = elim (string_to_int64_cases s v h) [
  | inl (z, e) ↦
      subst (λ u. (print_i64 u ≡ s) × IsInt64 u) e
        (zero_text_prints s z, (omega arith, omega arith))
  | inr (len, e) ↦ sign_prints s v len e
]
