-- ===== src/Listpack/Walk/Seek.antt =====
-- lpSeek finds the element of an index, counted from either end.
use carrotdb.Base.{
  ℕ, zero, suc, All, ◌+◌, ◌-◌, ◌/◌, ◌≤◌, ◌<◌, ◌≡◌, refl, sym, ap, ◌∙◌, subst, inl, inr, List, [],
  ◌∷◌, ◌++◌, Option, none, some, length, take, drop, take_all, get_elem?, ltb, leb, ◌==◌,
  if◌then◌else◌, arith, Bool-cases, le→ltb_false, lt→ltb, ==_iff, lt→==_false,
}
use carrotdb.Base.Int.{ℤ, pos, negsuc, sub_ℕ, ◌+ℤ◌, ltb_ℤ}
use carrotdb.Listpack.Header.{
  get_total_num_elements, get_total_num_elements-header, lp_hdr_numele_unknown,
}
use carrotdb.Listpack.Element.{lp_eof}
use carrotdb.Listpack.Insert.{returns}
use carrotdb.Listpack.Insert.Content.{entries, total, offset, IsListpack, Counts}
use carrotdb.Listpack.Insert.Refinement.{Counts-lt}
use carrotdb.Listpack.Walk.{
  lp_next, lp_prev, lp_first, lp_last, steps_right, steps_left, seek_from, seek_index, lp_seek,
}
use carrotdb.Listpack.Element.Size.{IsWalkable}
use carrotdb.Listpack.Walk.Step.{All-middle, lp_prev_first, total_bytes}
use carrotdb.Listpack.Walk.Sequence.{
  address, arrival-address, lp_first_lem, lp_next_lem, lp_prev_lem, lp_last_lem,
}

-- The element at an index, between those before it and those behind it.
pub split_at :
    (k : ℕ) (es : List (List ℕ))
    → k < length es
    → (e : List ℕ) × (es ≡ take k es ++ e ∷ drop (suc k) es)
      × (take (suc k) es ≡ take k es ++ e ∷ [])
      × (get_elem? es k ≡ some e)
split_at k [] h = absurd (omega arith)
split_at zero (x ∷ es) h = (x, refl, refl, refl)
split_at (suc k) (x ∷ es) h =
    let r = split_at k es (omega arith) in (r.0, ap (λ t. x ∷ t) r.1, ap (λ t. x ∷ t) r.2, r.3)

All-drop : (k : ℕ) (es : List (List ℕ)) → All IsWalkable es → All IsWalkable (drop k es)
All-drop zero es w = w
All-drop (suc k) [] w = w
All-drop (suc k) (x ∷ es) w = All-drop k es w.1

IsWalkable-at :
    (k : ℕ) (es : List (List ℕ))
    → (s : (e : List ℕ) × (es ≡ take k es ++ e ∷ drop (suc k) es)
        × (take (suc k) es ≡ take k es ++ e ∷ [])
        × (get_elem? es k ≡ some e))
    → All IsWalkable es
    → IsWalkable s.0
IsWalkable-at k es s w =
    All-middle _ (take k es) (drop (suc k) es) s.0 (subst (All IsWalkable) s.1 w)

-- The address of the element at an index, or null behind the last.
abbrev pub position : List (List ℕ) → ℕ → Option ℕ
position es k = if ltb k (length es) then some (offset (take k es)) else none

-- The same, counted from the right: 0 is the last element.
abbrev pub position_left : List (List ℕ) → ℕ → Option ℕ
position_left es k = if ltb k (length es) then some (offset (take (length es - 1 - k) es)) else none

abbrev pub seek_position : List (List ℕ) → ℤ → Option ℕ
seek_position es (pos n) = position es n
seek_position es (negsuc n) = position_left es n

address-drop :
    (p : List (List ℕ)) (k : ℕ) (es : List (List ℕ))
    → address p (drop k es) ≡ (if ltb k (length es) then some (offset p) else none)
address-drop p zero [] = refl
address-drop p zero (x ∷ es) = rw (lt→ltb 0 (suc (length es)) (omega arith))
address-drop p (suc k) [] = rw (le→ltb_false (suc k) 0 (omega arith))
address-drop p (suc k) (x ∷ es) = address-drop p k es ∙ shifted
  where
    shifted :
        (if ltb k (length es) then some (offset p) else none)
        ≡ (if ltb (suc k) (suc (length es)) then some (offset p) else none)
    shifted = elim (Bool-cases (ltb k (length es))) [
      | inl y ↦ rw (y, lt→ltb (suc k) (suc (length es)) (ground arith))
      | inr n ↦ rw (n, le→ltb_false (suc k) (suc (length es)) (ground arith))
    ]

last_of_none :
    {lp : List ℕ} (es : List (List ℕ))
    → IsListpack lp es
    → length es ≤ 0
    → lp_last lp ≡ returns none
unfolding lp_last
last_of_none {lp} [] h l = ap (lp_prev lp) (omega (arith, total_bytes h)) ∙ lp_prev_first lp
last_of_none (e ∷ es) h l = absurd (omega arith)

module _ (lp : List ℕ) (es : List (List ℕ)) (h : IsListpack lp es) (w : All IsWalkable es) where
  next_at :
      (k : ℕ) → k < length es → lp_next lp (offset (take k es)) ≡ returns (position es (suc k))
  next_at k lt =
      let s = split_at k es lt in
      lp_next_lem lp (take k es) (drop (suc k) es) s.0 (subst (IsListpack lp) s.1 h)
      ∙ arrival-address (take k es ++ s.0 ∷ []) (drop (suc k) es) (All-drop (suc k) es w)
      ∙ ap (λ t. returns (address t (drop (suc k) es))) (sym s.2)
      ∙ ap returns (address-drop (take (suc k) es) (suc k) es)

  prev_at :
      (k : ℕ)
      → k < length es
      → lp_prev lp (offset (take (suc k) es)) ≡ returns (some (offset (take k es)))
  prev_at k lt =
      let s = split_at k es lt in
      ap (λ t. lp_prev lp (offset t)) s.2
      ∙ lp_prev_lem lp (take k es) (drop (suc k) es) s.0 (subst (IsListpack lp) s.1 h)
      ∙ rw (IsWalkable-at k es s w) refl

  right_at : (n k : ℕ) → steps_right n lp (returns (position es k)) ≡ returns (position es (k + n))
  unfolding steps_right
  right_at zero k = ap (λ m. returns (position es m)) (omega arith)
  right_at (suc n) k = elim (Bool-cases (ltb k (length es))) [
    | inl y ↦ rw y (
        ap (steps_right n lp) (next_at k (ground arith))
        ∙ right_at n (suc k)
        ∙ ap (λ m. returns (position es m)) (omega arith))
    | inr m ↦ rw (m, le→ltb_false (k + suc n) (length es) (ground arith))
  ]

  left_step :
      (k : ℕ)
      → k < length es
      → lp_prev lp (offset (take (length es - 1 - k) es)) ≡ returns (position_left es (suc k))
  left_step k lt = elim (Bool-cases (ltb (suc k) (length es))) [
    | inl y ↦ rw y (
        ap (λ m. lp_prev lp (offset (take m es))) (one_down (ground arith))
        ∙ prev_at (length es - 1 - suc k) (omega arith))
    | inr m ↦
        rw m
          (ap (λ j. lp_prev lp (offset (take j es))) (at_first (ground arith)) ∙ lp_prev_first lp)
  ]
    where
      one_down : suc k < length es → length es - 1 - k ≡ suc (length es - 1 - suc k)
      one_down l = omega arith

      at_first : length es ≤ suc k → length es - 1 - k ≡ 0
      at_first l = omega arith

  left_at :
      (n k : ℕ)
      → steps_left n lp (returns (position_left es k)) ≡ returns (position_left es (k + n))
  unfolding steps_left
  left_at zero k = ap (λ m. returns (position_left es m)) (omega arith)
  left_at (suc n) k = elim (Bool-cases (ltb k (length es))) [
    | inl y ↦ rw y (
        ap (steps_left n lp) (left_step k (ground arith))
        ∙ left_at n (suc k)
        ∙ ap (λ m. returns (position_left es m)) (omega arith))
    | inr m ↦ rw (m, le→ltb_false (k + suc n) (length es) (ground arith))
  ]

  first_at : lp_first lp ≡ returns (position es 0)
  first_at = lp_first_lem lp es h ∙ arrival-address [] es w ∙ ap returns (address-drop [] 0 es)

  last_at : lp_last lp ≡ returns (position_left es 0)
  last_at = elim (Bool-cases (ltb 0 (length es))) [
    | inl y ↦
        let full : 0 < length es = ground arith in
        let s = split_at (length es - 1) es (omega arith) in
        let no_more : length es ≤ suc (length es - 1) = omega arith in
        let front : length es - 1 - 0 ≡ length es - 1 = omega arith in
        rw (y, front)
          (lp_last_lem lp (take (length es - 1) es) s.0
              (subst (IsListpack lp) (sym (take_all (suc (length es - 1)) es no_more) ∙ s.2) h)
            ∙ rw (IsWalkable-at (length es - 1) es s w) refl)
    | inr m ↦ rw m (last_of_none es h (ground arith))
  ]

  from_lem : (index : ℤ) → seek_from lp index ≡ returns (seek_position es index)
  unfolding seek_from
  from_lem (pos n) =
      ap (steps_right n lp) first_at
      ∙ right_at n 0
      ∙ ap (λ m. returns (position es m)) (omega arith)
  from_lem (negsuc n) =
      ap (steps_left n lp) last_at
      ∙ left_at n 0
      ∙ ap (λ m. returns (position_left es m)) (omega arith)

  -- The index counted from the left, with the number of the elements at hand.
  index_lem : (n : ℕ) → seek_index lp (length es) (pos n) ≡ returns (position es n)
  unfolding seek_index
  index_lem n = elim (Bool-cases (leb (length es) n)) [
    | inl out ↦ rw (out, le→ltb_false n (length es) (ground arith))
    | inr within ↦ elim (Bool-cases (ltb (length es / 2) n)) [
      | inl far ↦
          rw (within, far)
            (from_lem (negsuc (length es - n - 1)) ∙ ap returns (turned n (ground arith)))
      | inr near ↦ rw (within, near) (from_lem (pos n))
    ]
  ]
    where
      turned : (m : ℕ) → m < length es → position_left es (length es - m - 1) ≡ position es m
      turned m lt =
          rw (lt→ltb (length es - m - 1) (length es) (omega arith), lt→ltb m (length es) lt)
            (ap (λ j. some (offset (take j es))) (omega arith))

  -- A negative index is counted from the number of the elements.
  negative_lem :
      (n : ℕ)
      → seek_index lp (length es) (pos (length es) +ℤ negsuc n) ≡ returns (position_left es n)
  unfolding ◌+ℤ◌
  negative_lem n = elim (Bool-cases (ltb n (length es))) [
    | inl y ↦
        ap (seek_index lp (length es)) (ground arith)
        ∙ index_lem (length es - suc n)
        ∙ ap returns (same (ground arith))
    | inr m ↦
        rw m
          (ap (seek_index lp (length es)) (before_first (ground arith)) ∙ unfold seek_index in refl)
  ]
    where
      same : n < length es → position es (length es - suc n) ≡ position_left es n
      same lt =
          rw (lt→ltb (length es - suc n) (length es) (omega arith), lt→ltb n (length es) lt)
            (ap (λ j. some (offset (take j es))) (omega arith))

      before_first :
          length es ≤ n
          → sub_ℕ (length es + 0) (0 + suc n) ≡ negsuc (0 + suc n - (length es + 0) - 1)
      before_first l = ground arith

  known_lem :
      (index : ℤ)
      → seek_index lp (length es) (if ltb_ℤ index (pos 0) then pos (length es) +ℤ index else index)
        ≡ returns (seek_position es index)
  known_lem (pos n) = rw (le→ltb_false (n + 0) 0 (omega arith)) (index_lem n)
  known_lem (negsuc n) = rw (lt→ltb 0 (0 + suc n) (omega arith)) (negative_lem n)

-- On every listpack none of whose texts is an integer outside int32_t, lpSeek returns, for any
-- index, the address of the element so far from the left, or from the right for a negative index,
-- and null where there is none, whichever end it walks from and whether or not the header knows the
-- count; no assertion fails.
pub lp_seek_lem :
    (lp : List ℕ) (es : List (List ℕ)) (index : ℤ)
    → IsListpack lp es
    → All IsWalkable es
    → lp_seek lp index ≡ returns (seek_position es index)
unfolding lp_seek
lp_seek_lem lp es index h w =
    rw
      (ap get_total_num_elements h.bytes
        ∙ get_total_num_elements-header (total es) h.count (entries es ++ (lp_eof ∷ h.junk))
            (Counts-lt h.count es h.counts))
      (by_count h.count h.counts)
  where
    by_count :
        (c : ℕ)
        → Counts c es
        → (if c == lp_hdr_numele_unknown
            then seek_from lp index
            else seek_index lp c (if ltb_ℤ index (pos 0) then pos c +ℤ index else index))
          ≡ returns (seek_position es index)
    by_count c (inl e) = rw ((==_iff c lp_hdr_numele_unknown).1 e) (from_lem lp es h w index)
    by_count c (inr (e, lt)) =
        rw (e, lt→==_false (length es) lp_hdr_numele_unknown lt) (known_lem lp es h w index)
