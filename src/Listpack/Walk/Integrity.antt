-- ===== src/Listpack/Walk/Integrity.antt =====
-- lpValidateIntegrity accepts every well-formed block.
use mathlib.Core.Bool.{or-true}
use carrotdb.Base.{
  ℕ, zero, suc, inl, inr, Bool-cases, ◌&&◌, Option, ◌+◌, ◌-◌, ◌<◌, ◌≡◌, refl, sym, ap, ◌∙◌, subst,
  Bool, true, false, ◌||◌, not, List, [], ◌∷◌, ◌++◌, append_assoc, append-nil, none, some, length,
  drop, ltb, ◌==◌, if◌then◌else◌, arith, ==_iff, le→ltb_false,
}
use carrotdb.Listpack.Element.{lp_eof, byte}
use carrotdb.Listpack.Element.Size.{is_walkable, IsWalkable}
use carrotdb.Listpack.Header.{
  get_total_bytes, get_total_num_elements, get_total_num_elements-header, lp_hdr_numele_unknown,
}
use carrotdb.Listpack.Insert.Refinement.{Counts-lt}
use carrotdb.Listpack.Insert.Content.{entries, total, offset, IsListpack, Counts}
use carrotdb.Listpack.Walk.{validate_loop, validate_end, validate_integrity}
use carrotdb.Listpack.Walk.Step.{
  total_bytes, validate_next_here, validate_next_refused, first_byte, end_byte,
}
use carrotdb.Listpack.Walk.Length.{length-le-entries}

-- Whether no element is an integer outside int32_t.
unfoldable pub all_walkable : List (List ℕ) → Bool
all_walkable [] = true
all_walkable (e ∷ es) = is_walkable e && all_walkable es

-- The end of the loop: behind the last element with the count, or the answer false.
unfoldable loop_end : List (List ℕ) → List (List ℕ) → ℕ → Option (Option ℕ × ℕ)
loop_end xs ys count =
    if all_walkable ys then some (some (offset (xs ++ ys)), count + length ys) else none

loop_end_next :
    (xs ys : List (List ℕ)) (y : List ℕ) (count : ℕ)
    → IsWalkable y
    → loop_end (xs ++ y ∷ []) ys (count + 1) ≡ loop_end xs (y ∷ ys) count
unfolding loop_end all_walkable
loop_end_next xs ys y count walks =
    let n : count + 1 + length ys ≡ count + suc (length ys) = omega arith in
    rw (walks, append_assoc xs (y ∷ []) ys, n) refl

validate_loop_lem :
    (lp : List ℕ) (fuel count : ℕ) (xs ys : List (List ℕ))
    → IsListpack lp (xs ++ ys)
    → length ys < fuel
    → validate_loop fuel lp (total (xs ++ ys)) (some (offset xs)) count
      ≡ some (loop_end xs ys count)
unfolding validate_loop loop_end all_walkable
validate_loop_lem lp zero count xs ys h f = absurd (omega arith)
validate_loop_lem lp (suc fuel) count xs [] h f =
    let c0 : count + 0 ≡ count = omega arith in
    rw (append-nil, end_byte (subst (IsListpack lp) (append-nil xs) h), c0)
validate_loop_lem lp (suc fuel) count xs (y ∷ ys) h f = elim (Bool-cases (is_walkable y)) [
  | inl walks ↦
      rw (first_byte xs ys y h, validate_next_here xs ys y h walks)
        (subst
          (λ t.
            validate_loop fuel lp (total t) (some (offset (xs ++ y ∷ []))) (count + 1)
            ≡ some (loop_end xs (y ∷ ys) count))
          (append_assoc xs (y ∷ []) ys)
          (validate_loop_lem lp fuel (count + 1) (xs ++ y ∷ []) ys
              (subst (IsListpack lp) (sym (append_assoc xs (y ∷ []) ys)) h) (omega arith)
            ∙ ap some (loop_end_next xs ys y count walks)))
  | inr stuck ↦ rw (first_byte xs ys y h, validate_next_refused xs ys y h stuck, stuck) refl
]

-- On every listpack, with the size in its header, the check of lpValidateIntegrity ends: the
-- shallow one with true, and the deep one with true exactly if no text is an integer outside
-- int32_t.
pub validate_integrity_lem :
    (lp : List ℕ) (es : List (List ℕ)) (deep : Bool)
    → IsListpack lp es
    → validate_integrity lp (get_total_bytes lp) deep ≡ some (not deep || all_walkable es)
unfolding validate_integrity
validate_integrity_lem lp es deep h = rw (total_bytes h) (checks deep)
  where
    eof : total es - 1 ≡ offset es
    eof = omega arith

    num : get_total_num_elements lp ≡ h.count
    num =
        ap get_total_num_elements h.bytes
        ∙ get_total_num_elements-header (total es) h.count (entries es ++ (lp_eof ∷ h.junk))
            (Counts-lt h.count es h.counts)

    counted_plain : validate_end lp (get_total_bytes lp) (some (some (offset es), length es)) ≡ true
    counted_plain =
        unfold validate_end in
        rw (total_bytes h, num, eof, (==_iff (offset es) (offset es)).1 refl)
          (counted h.count h.counts)
      where
        counted : (c : ℕ) → Counts c es → ((c == lp_hdr_numele_unknown) || (c == length es)) ≡ true
        counted c (inl e) = rw ((==_iff c lp_hdr_numele_unknown).1 e)
        counted c (inr (e, lt)) =
            rw ((==_iff c (length es)).1 e) (or-true (c == lp_hdr_numele_unknown))

    counted_end :
        validate_end lp (get_total_bytes lp) (some (some (offset es), 0 + length es)) ≡ true
    counted_end = let plain : 0 + length es ≡ length es = omega arith in rw plain counted_plain

    ended : validate_end lp (get_total_bytes lp) (loop_end [] es 0) ≡ all_walkable es
    ended =
        unfold loop_end in
        elim (Bool-cases (all_walkable es)) [
          | inl y ↦ rw y counted_end
          | inr n ↦ rw n (unfold validate_end in refl)
        ]

    checks :
        (d : Bool)
        → (if ltb (total es) 7
            then some false
            else if not (total es == total es)
            then some false
            else if not (byte (drop (total es - 1) lp) 0 == lp_eof)
            then some false
            else if not d
            then some true
            else elim (validate_loop (total es) lp (total es) (some 6) 0) [
              | none ↦ none
              | some w ↦ some (validate_end lp (get_total_bytes lp) w)
            ])
          ≡ some (not d || all_walkable es)
    checks d =
        rw
          (
            le→ltb_false (total es) 7 (omega arith),
            (==_iff (total es) (total es)).1 refl,
            eof,
            end_byte h,
          )
          (depth d)
      where
        walked : validate_loop (total es) lp (total es) (some 6) 0 ≡ some (loop_end [] es 0)
        walked =
            unfold entries in
            validate_loop_lem lp (total es) 0 [] es h
              (omega (arith, length-le-entries es h.storable))

        depth :
            (b : Bool)
            → (if not b
                then some true
                else elim (validate_loop (total es) lp (total es) (some 6) 0) [
                  | none ↦ none
                  | some w ↦ some (validate_end lp (get_total_bytes lp) w)
                ])
              ≡ some (not b || all_walkable es)
        depth false = refl
        depth true = rw walked (ap some ended)
