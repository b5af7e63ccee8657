-- ===== src/Lists/Laws.antt =====
-- LPOP takes the first elements, in order.
use carrotdb.Base.{
  All, ℕ, zero, suc, ◌≡◌, refl, sym, ap, ◌∙◌, Bool, true, List, [], ◌∷◌, ◌++◌, append_assoc,
  append-nil, none, some, take, drop, length, arith,
}
use carrotdb.Listpack.Encoding.{encode_element}
use carrotdb.Listpack.Backlen.{encode_backlen}
use carrotdb.Listpack.Element.{element_text, lp_eof}
use carrotdb.Listpack.Element.Text.{element_text-encode_element}
use carrotdb.Listpack.Element.Size.{IsWalkable}
use carrotdb.Listpack.Insert.{returns}
use carrotdb.Listpack.Insert.Content.{entries, entry, offset, IsListpack}
use carrotdb.Listpack.Insert.Deletion.{lp_delete_lem}
use carrotdb.Listpack.Walk.Step.{at_offset, All-middle}
use carrotdb.Listpack.Walk.Sequence.{lp_first_lem}
use carrotdb.Lists.Pop.{block_of, lpop_at, lpop_round, lpop_loop}

-- The text read at the address behind `xs` is that of the next element.
pub element_text_here :
    (lp : List ℕ) (xs ys : List (List ℕ)) (e : List ℕ)
    → IsListpack lp (xs ++ e ∷ ys)
    → element_text (drop (offset xs) lp) ≡ e
unfolding entries entry
element_text_here lp xs ys e h =
    let small = All-middle _ xs ys e h.storable in
    let rest = encode_backlen (length (encode_element e)) in
    let behind = entries ys ++ (lp_eof ∷ h.junk) in
    ap element_text (
      at_offset xs (e ∷ ys) h
      ∙ append_assoc (encode_element e ++ rest) (entries ys) (lp_eof ∷ h.junk)
      ∙ append_assoc (encode_element e) rest behind)
    ∙ element_text-encode_element e (rest ++ behind) (omega arith)

round_here :
    (alloc : ℕ → Bool) (lp : List ℕ) (es : List (List ℕ)) (e : List ℕ)
    → IsListpack lp (e ∷ es)
    → IsWalkable e
    → ((n : ℕ) → alloc n ≡ true)
    → (lp' : List ℕ) × (lpop_round alloc (some lp) ≡ returns (some (e, some lp')))
      × IsListpack lp' es
unfolding lpop_round lpop_at block_of
round_here alloc lp es e h walks granted =
    let (r, run, newp, held) = lp_delete_lem alloc lp [] es e h (granted _) in
    (
      r.block,
      rw
          (
            lp_first_lem lp (e ∷ es) h,
            walks,
            lpop_round,
            run,
            lpop_at,
            element_text_here lp [] es e h,
          )
          refl,
      held,
    )

round_end :
    (alloc : ℕ → Bool) (lp : List ℕ) → IsListpack lp [] → lpop_round alloc (some lp) ≡ returns none
unfolding lpop_round lpop_at
round_end alloc lp h = rw (lp_first_lem lp [] h, lpop_round) refl

-- On a key whose listpack holds `es`, where every allocation succeeds and none of the elements to
-- take is an integer outside int32_t, the loop of LPOP with a count takes that many elements from
-- the left, or all if there are fewer, and adds their texts to the result in order; the listpack
-- that it leaves holds the others.
pub lpop_loop_lem :
    (alloc : ℕ → Bool) (n : ℕ) (lp : List ℕ) (es result : List (List ℕ))
    → IsListpack lp es
    → All IsWalkable (take n es)
    → ((m : ℕ) → alloc m ≡ true)
    → (lp' : List ℕ) × (lpop_loop alloc n (some lp) result
        ≡ returns (some lp', result ++ take n es))
      × IsListpack lp' (drop n es)
unfolding lpop_loop
lpop_loop_lem alloc zero lp es result h w granted =
    (lp, ap (λ t. returns (some lp, t)) (sym (append-nil result)), h)
lpop_loop_lem alloc (suc n) lp [] result h w granted = (
  lp,
  rw (round_end alloc lp h, lpop_loop) (ap (λ t. returns (some lp, t)) (sym (append-nil result))),
  h,
)
lpop_loop_lem alloc (suc n) lp (e ∷ es) result h w granted =
    let (next, run, held) = round_here alloc lp es e h w.0 granted in
    let (last, rest, kept) = lpop_loop_lem alloc n next es (result ++ (e ∷ [])) held w.1 granted in
    (
      last,
      rw (run, lpop_loop)
          (rest ∙ ap (λ t. returns (some last, t)) (append_assoc result (e ∷ []) (take n es))),
      kept,
    )
