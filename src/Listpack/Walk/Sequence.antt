-- ===== src/Listpack/Walk/Sequence.antt =====
-- The walk goes through the elements in their order, from either end.

use carrotdb.Base.{
  ℕ, zero, suc, refl, All, ◌+◌, ◌-◌, ◌≤◌, ◌<◌, ◌≡◌, sym, ap, ◌∙◌, subst, false, List, [], ◌∷◌, ◌++◌,
  append_assoc, append-nil, Option, none, some, length, length-append, drop, ◌==◌, if◌then◌else◌,
  arith,
}
use carrotdb.Listpack.Element.{byte, lp_eof}
use carrotdb.Listpack.Insert.{returns}
use carrotdb.Listpack.Insert.Content.{entries, entries-append, total, offset, IsListpack}
use carrotdb.Listpack.Walk.{
  is_out_of_range, assert_valid, lp_next, lp_prev, lp_first, lp_last, count_loop,
}
use carrotdb.Listpack.Element.Size.{IsWalkable}
use carrotdb.Listpack.Walk.Step.{
  arrival, in_range, assert_valid_here, first_byte, end_byte, entry_length_here, offset_next,
  lp_prev_here, total_bytes,
}

-- The address of the first of `ys` behind `xs`, or null where `ys` is empty.
abbrev pub address : List (List ℕ) → List (List ℕ) → Option ℕ
address xs [] = none
address xs (y ∷ ys) = some (offset xs)

-- Where every element can be walked over, a walk arrives at the address.
pub arrival-address :
    (xs ys : List (List ℕ)) → All IsWalkable ys → arrival xs ys ≡ returns (address xs ys)
arrival-address xs [] w = refl
arrival-address xs (y ∷ ys) w = rw w.0 refl

offset-lt-total : (xs ys : List (List ℕ)) → offset xs < total (xs ++ ys)
offset-lt-total xs ys =
    omega (arith, ap length (entries-append xs ys), length-append (entries xs) (entries ys))

-- On every listpack lpFirst returns the address of the first element, or null if there is none; it
-- ends in a failed assertion exactly if the first element is an integer outside int32_t.
pub lp_first_lem :
    (lp : List ℕ) (es : List (List ℕ)) → IsListpack lp es → lp_first lp ≡ arrival [] es
unfolding lp_first entries
lp_first_lem lp [] h = rw (end_byte h)
lp_first_lem lp (e ∷ es) h = rw (first_byte [] es e h) (assert_valid_here [] es e h)

next_target :
    (lp : List ℕ) (xs ys : List (List ℕ))
    → IsListpack lp (xs ++ ys)
    → (if byte (drop (offset xs) lp) 0 == lp_eof then returns none else assert_valid lp (offset xs))
      ≡ arrival xs ys
next_target lp xs [] h = rw (end_byte (subst (IsListpack lp) (append-nil xs) h))
next_target lp xs (y ∷ ys) h = rw (first_byte xs ys y h) (assert_valid_here xs ys y h)

-- On every listpack lpNext of an element returns the address of the element behind it, or null at
-- the last; it ends in a failed assertion exactly if the element behind is an integer outside
-- int32_t.
pub lp_next_lem :
    (lp : List ℕ) (xs ys : List (List ℕ)) (e : List ℕ)
    → IsListpack lp (xs ++ e ∷ ys)
    → lp_next lp (offset xs) ≡ arrival (xs ++ e ∷ []) ys
unfolding lp_next
lp_next_lem lp xs ys e h =
    rw (entry_length_here xs ys e h, sym (offset_next xs ys e h), total_bytes h, inside)
      (next_target lp (xs ++ e ∷ []) ys h')
  where
    h' : IsListpack lp ((xs ++ e ∷ []) ++ ys)
    h' = subst (IsListpack lp) (sym (append_assoc xs (e ∷ []) ys)) h

    bound : offset (xs ++ e ∷ []) < total (xs ++ e ∷ ys)
    bound =
        subst (λ zs. offset (xs ++ e ∷ []) < total zs) (append_assoc xs (e ∷ []) ys)
          (offset-lt-total (xs ++ e ∷ []) ys)

    inside : is_out_of_range (total (xs ++ e ∷ ys)) (offset (xs ++ e ∷ [])) ≡ false
    inside = in_range (total (xs ++ e ∷ ys)) (offset (xs ++ e ∷ [])) (omega arith) bound

-- On every listpack lpPrev of the address behind an element, be it an element's or the end's,
-- returns the address of that element; it ends in a failed assertion exactly if that element is an
-- integer outside int32_t.
pub lp_prev_lem :
    (lp : List ℕ) (xs ys : List (List ℕ)) (e : List ℕ)
    → IsListpack lp (xs ++ e ∷ ys)
    → lp_prev lp (offset (xs ++ e ∷ [])) ≡ arrival xs (e ∷ ys)
lp_prev_lem lp xs ys e h = lp_prev_here xs ys e h

-- lpLast arrives at the last element.
pub lp_last_lem :
    (lp : List ℕ) (xs : List (List ℕ)) (e : List ℕ)
    → IsListpack lp (xs ++ e ∷ [])
    → lp_last lp ≡ arrival xs (e ∷ [])
unfolding lp_last
lp_last_lem lp xs e h = rw (total_bytes h) (ap (lp_prev lp) eof ∙ lp_prev_lem lp xs [] e h)
  where
    eof : total (xs ++ e ∷ []) - 1 ≡ offset (xs ++ e ∷ [])
    eof = omega arith

-- The count of the walk is the number of the elements, whenever the fuel is at least that.
pub count_loop_lem :
    (lp : List ℕ) (fuel count : ℕ) (xs ys : List (List ℕ))
    → IsListpack lp (xs ++ ys)
    → All IsWalkable ys
    → length ys ≤ fuel
    → count_loop fuel lp (returns (address xs ys)) count ≡ some (returns (count + length ys))
unfolding count_loop
count_loop_lem lp zero count xs [] h w f = ap (λ n. some (returns n)) (omega arith)
count_loop_lem lp (suc fuel) count xs [] h w f = ap (λ n. some (returns n)) (omega arith)
count_loop_lem lp zero count xs (y ∷ ys) h w f = absurd (omega arith)
count_loop_lem lp (suc fuel) count xs (y ∷ ys) h w f =
    ap (λ p. count_loop fuel lp p (count + 1))
      (lp_next_lem lp xs ys y h ∙ arrival-address (xs ++ y ∷ []) ys w.1)
    ∙ count_loop_lem lp fuel (count + 1) (xs ++ y ∷ []) ys
        (subst (IsListpack lp) (sym (append_assoc xs (y ∷ []) ys)) h) w.1 (omega arith)
    ∙ ap (λ n. some (returns n)) (omega arith)
