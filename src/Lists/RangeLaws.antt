-- ===== src/Lists/RangeLaws.antt =====
-- LRANGE answers the slice between its two indices.
use carrotdb.Base.{
  All, ℕ, zero, suc, ◌+◌, ◌-◌, ◌≤◌, ◌<◌, ◌≡◌, refl, sym, ap, ◌∙◌, subst, inl, inr, List, [], ◌∷◌,
  ◌++◌, append_assoc, append-nil, none, some, take, drop, take_all, length, length-drop, leb, arith,
  lt→ltb, Bool-cases, if◌then◌else◌,
}
use carrotdb.Base.Int.{ℤ, pos, negsuc, pos_part}
use carrotdb.Listpack.Element.Size.{IsWalkable}
use carrotdb.Listpack.Insert.{returns}
use carrotdb.Listpack.Insert.Content.{offset, IsListpack}
use carrotdb.Listpack.Walk.{lp_seek}
use carrotdb.Listpack.Walk.Seek.{lp_seek_lem}
use carrotdb.Listpack.Walk.Length.{lp_length_lem}
use carrotdb.Lists.Laws.{element_text_here}
use carrotdb.Lists.Range.{
  from_left, clamp, lrange_loop, lrange_between, with_listpack, lrange_known, lrange,
}

-- The element at an index, and the list around it.
parted :
    (k : ℕ) (es : List (List ℕ))
    → k < length es
    → (e : List ℕ) × (es ≡ take k es ++ e ∷ drop (suc k) es) × (drop k es ≡ e ∷ drop (suc k) es)
parted k [] lt = absurd (omega arith)
parted zero (x ∷ es) lt = (x, refl, refl)
parted (suc k) (x ∷ es) lt =
    let (e, whole, rest) = parted k es (omega arith) in (e, ap (λ t. x ∷ t) whole, rest)

lrange_loop_lem :
    (rounds index : ℕ) (lp : List ℕ) (es result : List (List ℕ))
    → IsListpack lp es
    → All IsWalkable es
    → rounds + index ≤ length es
    → lrange_loop rounds lp index result ≡ returns (result ++ take rounds (drop index es))
unfolding lrange_loop
lrange_loop_lem zero index lp es result h w le = ap returns (sym (append-nil result))
lrange_loop_lem (suc rounds) index lp es result h w le =
    let (e, whole, rest) = parted index es (omega arith) in
    let found : lp_seek lp (pos index) ≡ returns (some (offset (take index es))) =
      lp_seek_lem lp es (pos index) h w
      ∙ ap (λ b. returns (if b then some (offset (take index es)) else none))
          (lt→ltb index (length es) (omega arith)) in
    let value =
      element_text_here lp (take index es) (drop (suc index) es) e
        (subst (IsListpack lp) whole h) in
    let next : index + 1 ≡ suc index = omega arith in
    rw (found, lrange_loop, value, next, rest)
      (lrange_loop_lem rounds (suc index) lp es (result ++ (e ∷ [])) h w (omega arith)
        ∙ ap returns (append_assoc result (e ∷ []) (take rounds (drop (suc index) es))))

-- The elements from one index to another, both counted from the right where they are negative.
abbrev pub slice_to : List (List ℕ) → ℕ → ℤ → List (List ℕ)
slice_to es start (negsuc n) = []
slice_to es start (pos stop) = take (stop + 1 - start) (drop start es)

abbrev pub slice : List (List ℕ) → ℤ → ℤ → List (List ℕ)
slice es start stop =
    slice_to es (pos_part (from_left (length es) start)) (from_left (length es) stop)

take_more : (m n : ℕ) (xs : List (List ℕ)) → length xs ≤ m → length xs ≤ n → take m xs ≡ take n xs
take_more m n xs le le' = take_all m xs le ∙ sym (take_all n xs le')

take_none : (m : ℕ) (xs : List (List ℕ)) → length xs ≡ 0 → take m xs ≡ []
take_none m [] e = take_all m [] (omega arith)
take_none m (x ∷ xs) e = absurd (omega arith)

between_lem :
    (lp : List ℕ) (es : List (List ℕ)) (start stop : ℤ)
    → IsListpack lp es
    → All IsWalkable es
    → lrange_between lp (clamp (length es) start stop) ≡ returns (slice_to es (pos_part start) stop)
unfolding lrange_between clamp
between_lem lp es start (negsuc n) h w = refl
between_lem lp es start (pos stop) h w = elim (Bool-cases (leb (length es) (pos_part start))) [
  | inl e ↦ rw e (
      ap returns (
        sym (
          take_none (stop + 1 - pos_part start) (drop (pos_part start) es)
            (length-drop (pos_part start) es ∙ ground arith))))
  | inr e ↦
      let b = pos_part start in
      let lt : b < length es = ground arith in
      elim (Bool-cases (leb (length es) stop)) [
        | inl f ↦
            let le : length es ≤ stop = ground arith in
            rw (e, f)
              (lrange_loop_lem (length es - 1 + 1 - b) b lp es [] h w (omega arith)
                ∙ ap returns (
                    take_more (length es - 1 + 1 - b) (stop + 1 - b) (drop b es)
                      (omega (arith, length-drop b es)) (omega (arith, length-drop b es))))
        | inr f ↦
            let gt : stop < length es = ground arith in
            rw (e, f) (lrange_loop_lem (stop + 1 - b) b lp es [] h w (omega arith))
      ]
]

-- On a key whose listpack holds `es`, none of them an integer outside int32_t, the bounds and the
-- loop of LRANGE end with no failed assertion and collect the slice of `es` from the first index to
-- the second one, for any two indices, where a negative one counts from the right, a first one
-- still left of the list is its start, and an empty slice is empty; the listpack keeps its
-- elements.
pub lrange_lem :
    (lp : List ℕ) (es : List (List ℕ)) (start stop : ℤ)
    → IsListpack lp es
    → All IsWalkable es
    → (lp' : List ℕ) × (lrange lp start stop ≡ some (returns (slice es start stop, lp')))
      × IsListpack lp' es
unfolding lrange lrange_known with_listpack
lrange_lem lp es start stop h w =
    let (next, run, held) = lp_length_lem lp es h w in
    let len = length es in
    (
      next,
      ap (lrange_known start stop) run
          ∙ ap (λ r. some (with_listpack next r))
              (between_lem next es (from_left len start) (from_left len stop) held w),
      held,
    )
