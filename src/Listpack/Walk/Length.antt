-- ===== src/Listpack/Walk/Length.antt =====
-- lpLength counts the elements, and lpPrepend puts one before them.
use carrotdb.Base.{
  ℕ, ◌≤◌, ◌<◌, ◌^◌, ◌≡◌, refl, ap, ◌∙◌, inl, inr, Bool, true, not, List, [], ◌∷◌, ◌++◌, none, some,
  length, length-append, ltb, ◌==◌, if◌then◌else◌, arith, ==_iff, lt→==_false, Bool-cases,
}
use carrotdb.Listpack.Element.{lp_eof}
use carrotdb.Listpack.Header.{
  get_total_bytes, get_total_num_elements, get_total_num_elements-header, lp_hdr_numele_unknown,
  set_num_elements, set_num_elements-header,
}
use carrotdb.Listpack.Insert.{returns, aborts, Inserted}
use carrotdb.Listpack.Insert.Refinement.{Counts-lt, lp_insert-before, lp_append_lem}
use carrotdb.Listpack.Insert.Refinement.{entry_pos}
use carrotdb.Listpack.Insert.Content.{offset, entries, entry, total, IsListpack, IsStorable, Counts}
use carrotdb.Base.{All, take}
use carrotdb.Listpack.Element.Size.{is_walkable, IsWalkable}
use carrotdb.Listpack.Walk.{lp_first, count_loop, store_count, lp_length, lp_prepend, prepend_at}
use carrotdb.Listpack.Walk.Step.{total_bytes}
use carrotdb.Listpack.Walk.Sequence.{arrival-address, lp_first_lem, count_loop_lem}

pub length-le-entries : (es : List (List ℕ)) → All IsStorable es → length es ≤ length (entries es)
unfolding entries
length-le-entries [] h = omega arith
length-le-entries (e ∷ es) h =
    omega (arith, length-append (entry e) (entries es), entry_pos e h.0, length-le-entries es h.1)

-- On every listpack none of whose texts is an integer outside int32_t, the loop of lpLength ends
-- with no failed assertion, and it returns the number of the elements; the block keeps its
-- elements.
pub lp_length_lem :
    (lp : List ℕ) (es : List (List ℕ))
    → IsListpack lp es
    → All IsWalkable es
    → (lp' : List ℕ) × (lp_length lp ≡ some (returns (length es, lp'))) × IsListpack lp' es
unfolding lp_length
lp_length_lem lp es h w =
    rw
      (ap get_total_num_elements h.bytes
        ∙ get_total_num_elements-header (total es) h.count (entries es ++ (lp_eof ∷ h.junk))
            (Counts-lt h.count es h.counts))
      (by_count h.count h.counts)
  where
    walked : count_loop (get_total_bytes lp) lp (lp_first lp) 0 ≡ some (returns (length es))
    walked =
        ap (λ p. count_loop (get_total_bytes lp) lp p 0)
          (lp_first_lem lp es h ∙ arrival-address [] es w)
        ∙ count_loop_lem lp (get_total_bytes lp) 0 [] es h w
            (omega (arith, total_bytes h, length-le-entries es h.storable))
        ∙ ap (λ n. some (returns n)) (omega arith)

    by_count :
        (c : ℕ)
        → Counts c es
        → (lp' : List ℕ) × ((if not (c == lp_hdr_numele_unknown)
              then some (returns (c, lp))
              else elim (count_loop (get_total_bytes lp) lp (lp_first lp) 0) [
                | none ↦ none
                | some r ↦ some (store_count lp r)
              ])
            ≡ some (returns (length es, lp')))
          × IsListpack lp' es
    by_count c (inr (e, lt)) = (
      lp,
      rw (lt→==_false c lp_hdr_numele_unknown (omega arith)) (ap (λ n. some (returns (n, lp))) e),
      h,
    )
    by_count c (inl e) = elim (Bool-cases (ltb (length es) lp_hdr_numele_unknown)) [
      | inl few ↦ (
        set_num_elements lp (length es),
        rw ((==_iff c lp_hdr_numele_unknown).1 e) (rw walked (unfold store_count in rw few)),
        record {
          count = length es;
          junk = h.junk;
          bytes =
              ap (λ t. set_num_elements t (length es)) h.bytes
              ∙ set_num_elements-header (total es) h.count (length es)
                  (entries es ++ (lp_eof ∷ h.junk));
          counts = inr (refl, ground arith);
          storable = h.storable;
          fits = h.fits;
        },
      )
      | inr many ↦ (
        lp,
        rw ((==_iff c lp_hdr_numele_unknown).1 e) (rw walked (unfold store_count in rw many)),
        h,
      )
    ]

first_here :
    (e : List ℕ)
    → IsWalkable e
    → (if is_walkable e then returns (some (offset [])) else aborts) ≡ returns (some (offset []))
first_here e walks = rw walks refl

-- When a listpack holds `es`, whose first text is no integer outside int32_t, the text can be
-- stored, the new size fits 32 bits and the allocation of that size succeeds, lpPrepend returns a
-- listpack that holds the text and then `es`, be it empty or not.
pub lp_prepend_lem :
    (alloc : ℕ → Bool) (lp : List ℕ) (es : List (List ℕ)) (s : List ℕ)
    → IsListpack lp es
    → All IsWalkable (take 1 es)
    → IsStorable s
    → total (s ∷ es) < 2 ^ 32
    → alloc (total (s ∷ es)) ≡ true
    → (r : Inserted) × (lp_prepend alloc lp s ≡ returns (some r)) × IsListpack r.block (s ∷ es)
unfolding lp_prepend prepend_at entries
lp_prepend_lem alloc lp [] s h w k small granted =
    let r = lp_append_lem alloc lp [] s h k small granted in
    (r.0, ap (prepend_at alloc lp s) (lp_first_lem lp [] h) ∙ r.1, r.2)
lp_prepend_lem alloc lp (e ∷ es) s h w k small granted =
    let r = lp_insert-before alloc lp [] (e ∷ es) s h k small granted in
    (r.0, ap (prepend_at alloc lp s) (lp_first_lem lp (e ∷ es) h ∙ first_here e w.0) ∙ r.1, r.3)
