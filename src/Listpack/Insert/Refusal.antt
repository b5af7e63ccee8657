-- ===== src/Listpack/Insert/Refusal.antt =====
-- lpInsert of a text that does not fit, or that finds no memory.
use carrotdb.Base.{
  ℕ, ◌+◌, ◌-◌, ◌%◌, ◌^◌, ◌≤◌, ◌<◌, ◌≡◌, refl, sym, ap, ◌∙◌, subst, ◌⊎◌, inl, inr, Bool, true, false,
  ◌&&◌, List, ◌∷◌, ◌++◌, some, none, length, length-append, leb, ◌==◌, arith,
}
use carrotdb.Listpack.Encoding.{encode_element}
use carrotdb.Listpack.Backlen.{encode_backlen}
use carrotdb.Listpack.Header.{get_total_bytes}
use carrotdb.Listpack.Insert.{
  before, returns, Payload, payload_enclen, payload_backlen, may_store, insert_at, dispatch,
  lp_insert,
}
use carrotdb.Listpack.Insert.Content.{entry, total, offset, IsListpack, IsStorable}
use carrotdb.Listpack.Insert.Refinement.{payload-encode_element, entry_pos}
use carrotdb.Listpack.Insert.Deletion.{total-remove}
use carrotdb.Listpack.Walk.Step.{total_bytes}

-- A new size is refused where it does not fit 32 bits or the allocation fails.
abbrev pub IsRefused : (ℕ → Bool) → ℕ → Type 0
IsRefused alloc n = (2 ^ 32 ≤ n) ⊎ (alloc n ≡ false)

may_store_lem :
    (alloc : ℕ → Bool) (old new : ℕ)
    → old < new
    → IsRefused alloc new
    → may_store alloc old new ≡ false
unfolding may_store
may_store_lem alloc old new lt (inl big) =
    let over : leb new (2 ^ 32 - 1) ≡ false = ground arith in rw over refl
may_store_lem alloc old new lt (inr refused) =
    let differ : (new == old) ≡ false = ground arith in
    rw (differ, refused) (and_false (leb new (2 ^ 32 - 1)))
  where
    and_false : (b : Bool) → (b && false) ≡ false
    and_false true = refl
    and_false false = refl

insert_at_refused :
    (alloc : ℕ → Bool) (lp : List ℕ) (pl : Payload) (p old room : ℕ)
    → get_total_bytes lp ≡ old
    → payload_enclen (some pl) + length (payload_backlen (some pl)) ≡ room
    → 0 < room
    → old + room < 2 ^ 64
    → IsRefused alloc (old + room)
    → insert_at alloc lp (some pl) false 0 p ≡ none
unfolding insert_at
insert_at_refused alloc lp pl p old room bytes size pos small refused =
    let new : (old + room + (2 ^ 64 - 0)) % 2 ^ 64 ≡ old + room = omega arith in
    rw (bytes, size, new, may_store_lem alloc old (old + room) (omega arith) refused) refl

-- When a listpack holds `xs ++ ys`, the text can be stored and the new size is below 2 ^ 64, but it
-- does not fit 32 bits or the allocation of that size fails, lpInsert of the text before the
-- address behind `xs` returns null.
pub lp_insert_refused :
    (alloc : ℕ → Bool) (lp : List ℕ) (xs ys : List (List ℕ)) (s : List ℕ)
    → IsListpack lp (xs ++ ys)
    → IsStorable s
    → total (xs ++ s ∷ ys) < 2 ^ 64
    → IsRefused alloc (total (xs ++ s ∷ ys))
    → lp_insert alloc lp (some s) none (length s) (offset xs) before ≡ returns none
unfolding lp_insert dispatch entry
lp_insert_refused alloc lp xs ys s h k small refused =
    let grown = total-remove xs ys s in
    ap (λ pl. dispatch alloc lp pl before (offset xs))
      (payload-encode_element s (length s) (omega arith))
    ∙ ap returns (
        insert_at_refused alloc lp
          (record { bytes = encode_element s; enclen = length (encode_element s) }) (offset xs)
          (total (xs ++ ys)) (length (entry s)) (total_bytes h)
          (sym (length-append (encode_element s) (encode_backlen (length (encode_element s)))))
          (entry_pos s k) (omega (arith, grown)) (subst (IsRefused alloc) grown refused))
