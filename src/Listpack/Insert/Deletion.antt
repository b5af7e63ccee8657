-- ===== src/Listpack/Insert/Deletion.antt =====
-- lpDelete removes one element from the list.
use mathlib.Core.Path.{ap₂}
use carrotdb.Base.{
  ℕ, ◌+◌, ◌-◌, ◌%◌, ◌^◌, ◌≤◌, ◌<◌, ◌≡◌, refl, sym, ap, ◌∙◌, subst, Bool, true, false, ◌&&◌, List,
  [], ◌∷◌, ◌++◌, append_assoc, none, some, length, length-append, All, arith, ltb, leb,
  if◌then◌else◌, ◌==◌,
}
use carrotdb.Listpack.Encoding.{encode_element}
use carrotdb.Listpack.Element.{lp_eof, byte}
use carrotdb.Listpack.Element.Size.{encode_element-Sized}
use carrotdb.Listpack.Memory.{drop_at}
use carrotdb.Listpack.Header.{header}
use carrotdb.Listpack.Insert.{
  Inserted, returns, insert_at, payload, lp_insert, dispatch, replace_at, lp_delete, inside_len,
  entry_length, newp_of,
}
use carrotdb.Listpack.Backlen.{encode_backlen}
use carrotdb.Listpack.Insert.Refinement.{entry_pos}
use carrotdb.Listpack.Insert.Gap.{insert_at-delete, counted_down}
use carrotdb.Listpack.Insert.Content.{
  entries, entry, entries-append, total, offset, image, IsListpack, Counts, IsStorable,
}
use carrotdb.Listpack.Walk.Step.{entry_length_here, total_bytes}
use carrotdb.Listpack.Walk.Sequence.{address}

All-remove :
    (xs ys : List (List ℕ)) (e : List ℕ) → All IsStorable (xs ++ e ∷ ys) → All IsStorable (xs ++ ys)
All-remove [] ys e h = h.1
All-remove (x ∷ xs) ys e h = (h.0, All-remove xs ys e h.1)

Counts-down :
    (c : ℕ) (xs ys : List (List ℕ)) (e : List ℕ)
    → Counts c (xs ++ e ∷ ys)
    → Counts (counted_down c) (xs ++ ys) × (0 < c) × (c < 2 ^ 16)
Counts-down c xs ys e h = ground (arith, length-append xs ys, length-append xs (e ∷ ys))

pub total-remove :
    (xs ys : List (List ℕ)) (e : List ℕ)
    → total (xs ++ e ∷ ys) ≡ total (xs ++ ys) + length (entry e)
unfolding entries
total-remove xs ys e = omega (
  arith,
  ap length (entries-append xs (e ∷ ys)),
  ap length (entries-append xs ys),
  length-append (entries xs) (entry e ++ entries ys),
  length-append (entries xs) (entries ys),
  length-append (entry e) (entries ys),
)

within_block :
    (p len total_size : ℕ)
    → 6 ≤ p
    → p + len < total_size
    → (leb 6 p && ltb (p + len) total_size) ≡ true
within_block p len total_size lo hi = ground arith

-- The end mark stands at an address exactly when no element does.
first_or_end :
    (xs ys : List (List ℕ))
    → All IsStorable ys
    → (if byte (entries ys ++ (lp_eof ∷ [])) 0 == lp_eof then none else some (offset xs))
      ≡ address xs ys
unfolding entries
first_or_end xs [] h = refl
first_or_end xs (y ∷ ys) h = rw not_eof
  where
    after : List ℕ
    after = encode_backlen (length (encode_element y)) ++ (entries ys ++ (lp_eof ∷ []))

    shape : entries (y ∷ ys) ++ (lp_eof ∷ []) ≡ encode_element y ++ after
    shape =
        unfold entries entry in
        (append_assoc (encode_element y ++ encode_backlen (length (encode_element y))) (entries ys)
            (lp_eof ∷ [])
          ∙ append_assoc (encode_element y) (encode_backlen (length (encode_element y)))
              (entries ys ++ (lp_eof ∷ [])))

    below : byte (encode_element y ++ after) 0 < lp_eof
    below = (encode_element-Sized y after h.0).not_eof

    not_eof : (byte (entries (y ∷ ys) ++ (lp_eof ∷ [])) 0 == lp_eof) ≡ false
    not_eof = rw shape (ground (arith, below))

All-right : (xs ys : List (List ℕ)) → All IsStorable (xs ++ ys) → All IsStorable ys
All-right [] ys h = h
All-right (x ∷ xs) ys h = All-right xs ys h.1

module _ (c : ℕ) (xs ys : List (List ℕ)) (e junk : List ℕ) where
  rest : List ℕ
  rest = entries ys ++ (lp_eof ∷ [])

  split :
      image c (xs ++ e ∷ ys) junk
      ≡ header (total (xs ++ e ∷ ys)) c (entries xs ++ (entry e ++ (rest ++ junk)))
  unfolding rest entries
  split = ap (header (total (xs ++ e ∷ ys)) c) (
      ap (λ t. t ++ (lp_eof ∷ junk)) (entries-append xs (e ∷ ys))
      ∙ append_assoc (entries xs) (entry e ++ entries ys) (lp_eof ∷ junk)
      ∙ ap (λ t. entries xs ++ t)
          (append_assoc (entry e) (entries ys) (lp_eof ∷ junk)
            ∙ ap (λ t. entry e ++ t) (sym (append_assoc (entries ys) (lp_eof ∷ []) junk))))

  joined : entries xs ++ rest ≡ entries (xs ++ ys) ++ (lp_eof ∷ [])
  unfolding rest
  joined =
      sym (append_assoc (entries xs) (entries ys) (lp_eof ∷ []))
      ∙ ap (λ t. t ++ (lp_eof ∷ [])) (sym (entries-append xs ys))

  newp_address :
      (n : ℕ)
      → All IsStorable ys
      → newp_of none (header n c (entries xs ++ rest)) (offset xs) ≡ address xs ys
  newp_address n h =
      ap (λ t. if byte t 0 == lp_eof then none else some (offset xs))
        (drop_at (offset xs) (header n c (entries xs)) rest (omega arith))
      ∙ unfold rest in first_or_end xs ys h

  abbrev removed : Inserted
  removed = record { block = image (counted_down c) (xs ++ ys) []; newp = address xs ys }

  image-removed :
      (alloc : ℕ → Bool)
      → 0 < c
      → c < 2 ^ 16
      → All IsStorable (xs ++ e ∷ ys)
      → IsStorable e
      → total (xs ++ e ∷ ys) < 2 ^ 32
      → alloc (total (xs ++ ys)) ≡ true
      → insert_at alloc (image c (xs ++ e ∷ ys) junk) none true (length (entry e)) (offset xs)
        ≡ some removed
  image-removed alloc p known all k small granted =
      ap (λ t. insert_at alloc t none true (length (entry e)) (offset xs)) split
      ∙ insert_at-delete (total (xs ++ e ∷ ys)) c (entries xs) (entry e) rest junk alloc
          (entry_pos e k) in_use p known small (subst (λ n. alloc n ≡ true) (sym less) granted)
      ∙ ap
          (λ q. some (record {
            block =
                header (total (xs ++ e ∷ ys) - length (entry e)) (counted_down c)
                  (entries xs ++ rest);
            newp = q;
          }))
          (newp_address (total (xs ++ e ∷ ys)) (All-right xs (e ∷ ys) all).1)
      ∙ ap₂ (λ n t. some (record { block = header n (counted_down c) t; newp = address xs ys }))
          less joined
    where
      less : total (xs ++ e ∷ ys) - length (entry e) ≡ total (xs ++ ys)
      less = omega (arith, total-remove xs ys e)

      in_use : total (xs ++ e ∷ ys) ≡ 6 + length (entries xs) + (length (entry e) + length rest)
      in_use =
          unfold rest entries in
          omega (
            arith,
            ap length (entries-append xs (e ∷ ys)),
            length-append (entries xs) (entry e ++ entries ys),
            length-append (entry e) (entries ys),
            length-append (entries ys) (lp_eof ∷ []),
          )

-- When a listpack holds `xs ++ e ∷ ys` and the allocation of the smaller block succeeds, lpDelete
-- at the address behind `xs` returns a listpack that holds `xs ++ ys`, and the address of the first
-- of `ys`, or null if there is none.
pub lp_delete_lem :
    (alloc : ℕ → Bool) (lp : List ℕ) (xs ys : List (List ℕ)) (e : List ℕ)
    → IsListpack lp (xs ++ e ∷ ys)
    → alloc (total (xs ++ ys)) ≡ true
    → (r : Inserted) × (lp_delete alloc lp (offset xs) ≡ returns (some r))
      × (r.newp ≡ address xs ys)
      × IsListpack r.block (xs ++ ys)
unfolding lp_delete lp_insert payload dispatch replace_at
lp_delete_lem alloc lp xs ys e h granted = (removed h.count xs ys e h.junk, run, refl, held)
  where
    counting : Counts (counted_down h.count) (xs ++ ys) × (0 < h.count) × (h.count < 2 ^ 16)
    counting = Counts-down h.count xs ys e h.counts

    less : total (xs ++ e ∷ ys) ≡ total (xs ++ ys) + length (entry e)
    less = total-remove xs ys e

    replaced : entry_length lp (offset xs) % 2 ^ 32 ≡ length (entry e)
    replaced = omega (arith, entry_length_here xs ys e h, h.fits, less)

    behind : offset xs + length (entry e) < total (xs ++ e ∷ ys)
    behind =
        omega
          (arith, less, ap length (entries-append xs ys), length-append (entries xs) (entries ys))

    fitting : inside_len lp (offset xs) (length (entry e)) ≡ true
    fitting =
        unfold inside_len in
        rw (total_bytes h)
          (within_block (offset xs) (length (entry e)) (total (xs ++ e ∷ ys)) (omega arith) behind)

    run : lp_delete alloc lp (offset xs) ≡ returns (some (removed h.count xs ys e h.junk))
    run =
        rw (replaced, fitting)
          (ap returns (
            ap (λ t. insert_at alloc t none true (length (entry e)) (offset xs)) h.bytes
            ∙ image-removed h.count xs ys e h.junk alloc counting.1 counting.2 h.storable
                (All-right xs (e ∷ ys) h.storable).0 h.fits granted))

    held : IsListpack (image (counted_down h.count) (xs ++ ys) []) (xs ++ ys)
    held = record {
      count = counted_down h.count;
      junk = [];
      bytes = refl;
      counts = counting.0;
      storable = All-remove xs ys e h.storable;
      fits = omega (arith, h.fits, less);
    }
