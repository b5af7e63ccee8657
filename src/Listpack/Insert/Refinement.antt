-- ===== src/Listpack/Insert/Refinement.antt =====
-- lpInsert before an element, and lpAppend, insert into the list of the elements.
use mathlib.Core.Path.{ap₂}
use carrotdb.Base.{
  ℕ, ◌+◌, ◌-◌, ◌^◌, ◌<◌, ◌≡◌, refl, sym, ap, ◌∙◌, subst, inl, inr, Bool, true, false, List, [], ◌∷◌,
  ◌++◌, append_assoc, append-nil, none, some, length, length-append, All, arith, ltb, if◌then◌else◌,
  take_all, Option-cases,
}
use carrotdb.Base.Int.{ℤ}
use carrotdb.Listpack.Number.{string_to_int64}
use carrotdb.Listpack.Encoding.{encode_element, encode_get_type, encode_integer, encode_string}
use carrotdb.Listpack.Encoding.Bytes.{text_format, short, medium, long}
use carrotdb.Listpack.Backlen.{encode_backlen, encode_backlen_bytes}
use carrotdb.Listpack.Backlen.RoundTrip.{length-encode_backlen}
use carrotdb.Listpack.Element.{lp_eof}
use carrotdb.Listpack.Element.Text.{encode_element_text, encode_element_integer}
use carrotdb.Listpack.Header.{header, get_total_bytes, get_total_bytes-header}
use carrotdb.Listpack.Insert.{
  Payload, Inserted, returns, before, insert_at, payload, chosen, lp_insert, dispatch, lp_append,
}
use carrotdb.Listpack.Insert.Gap.{insert_at-before, counted_up}
use carrotdb.Listpack.Insert.Content.{
  entries, entry, entries-append, total, offset, image, IsListpack, Counts, IsStorable,
}

length-encode_string :
    (s : List ℕ)
    → length s < 2 ^ 32
    → length (encode_string s) ≡ (
        if ltb (length s) 64
        then 1 + length s
        else if ltb (length s) 4096
        then 2 + length s
        else 5 + length s)
length-encode_string s h = elim (text_format s h) [
  | short a e ↦ rw e (ground arith)
  | medium a b e ↦ rw e (ground arith)
  | long a e ↦ rw e (ground arith)
]

choice_text :
    (s : List ℕ)
    → string_to_int64 s ≡ none
    → encode_get_type s ≡ record {
      intenc = none;
      enclen =
          if ltb (length s) 64
          then 1 + length s
          else if ltb (length s) 4096
          then 2 + length s
          else 5 + length s;
    }
unfolding encode_get_type
choice_text s e = rw (e, encode_get_type)

choice_integer :
    (s : List ℕ) (v : ℤ)
    → string_to_int64 s ≡ some v
    → encode_get_type s
      ≡ record { intenc = some (encode_integer v); enclen = length (encode_integer v) }
unfolding encode_get_type
choice_integer s v e = rw (e, encode_get_type)

-- What lpInsert stores for a text: the bytes of the element, with their number.
pub payload-encode_element :
    (s : List ℕ) (size : ℕ)
    → length s < 2 ^ 32
    → payload (some s) none size
      ≡ some (record { bytes = encode_element s; enclen = length (encode_element s) })
unfolding payload
payload-encode_element s size h = elim (Option-cases (string_to_int64 s)) [
  | inl e ↦
      rw (encode_element_text s e, length-encode_string s h)
        (ap (λ t. some (chosen s t)) (choice_text s e))
  | inr (v, e) ↦ rw (encode_element_integer s v e) (
      ap (λ t. some (chosen s t)) (choice_integer s v e)
      ∙ ap (λ t. some (record { bytes = t; enclen = length (encode_integer v) }))
          (take_all (length (encode_integer v)) (encode_integer v) (omega arith)))
]

-- The length behind an element is never empty.
pub back_pos : (n : ℕ) → 0 < length (encode_backlen n)
back_pos n = rw (length-encode_backlen n) (unfold encode_backlen_bytes in ground arith)

pub entry_pos : (e : List ℕ) → IsStorable e → 0 < length (entry e)
unfolding entry
entry_pos e h = omega (
  arith,
  length-append (encode_element e) (encode_backlen (length (encode_element e))),
  back_pos (length (encode_element e)),
)

Counts-up :
    (c : ℕ) (xs ys : List (List ℕ)) (s : List ℕ)
    → Counts c (xs ++ ys)
    → Counts (counted_up c) (xs ++ s ∷ ys)
Counts-up c xs ys s h = ground (arith, length-append xs ys, length-append xs (s ∷ ys))

pub Counts-lt : (c : ℕ) (es : List (List ℕ)) → Counts c es → c < 2 ^ 16
Counts-lt c es h = ground arith

-- The bytes of a block, split at the address behind `xs`.
image_split :
    (c : ℕ) (xs ys : List (List ℕ)) (junk : List ℕ)
    → image c (xs ++ ys) junk
      ≡ header (total (xs ++ ys)) c (entries xs ++ ((entries ys ++ (lp_eof ∷ [])) ++ junk))
image_split c xs ys junk = ap (header (total (xs ++ ys)) c) (
    ap (λ t. t ++ (lp_eof ∷ junk)) (entries-append xs ys)
    ∙ append_assoc (entries xs) (entries ys) (lp_eof ∷ junk)
    ∙ ap (λ t. entries xs ++ t) (sym (append_assoc (entries ys) (lp_eof ∷ []) junk)))

entries_with :
    (xs ys : List (List ℕ)) (s : List ℕ)
    → entries xs
        ++ (encode_element s
            ++ (encode_backlen (length (encode_element s)) ++ (entries ys ++ (lp_eof ∷ []))))
      ≡ entries (xs ++ s ∷ ys) ++ (lp_eof ∷ [])
unfolding entry entries
entries_with xs ys s =
    ap (λ t. entries xs ++ t)
      (sym (append_assoc (encode_element s) back (entries ys ++ (lp_eof ∷ [])))
        ∙ sym (append_assoc (entry s) (entries ys) (lp_eof ∷ [])))
    ∙ sym (append_assoc (entries xs) (entry s ++ entries ys) (lp_eof ∷ []))
    ∙ ap (λ t. t ++ (lp_eof ∷ [])) (sym (entries-append xs (s ∷ ys)))
  where
    back : List ℕ
    back = encode_backlen (length (encode_element s))

length-entries_with :
    (xs ys : List (List ℕ)) (s : List ℕ)
    → total (xs ++ s ∷ ys)
      ≡ total (xs ++ ys)
        + (length (encode_element s) + length (encode_backlen (length (encode_element s))))
length-entries_with xs ys s = omega (
  arith,
  ap length (entries_with xs ys s),
  length-append (entries xs) (encode_element s ++ (back ++ (entries ys ++ (lp_eof ∷ [])))),
  length-append (encode_element s) (back ++ (entries ys ++ (lp_eof ∷ []))),
  length-append back (entries ys ++ (lp_eof ∷ [])),
  length-append (entries ys) (lp_eof ∷ []),
  length-append (entries (xs ++ s ∷ ys)) (lp_eof ∷ []),
  ap length (entries-append xs ys),
  length-append (entries xs) (entries ys),
)
  where
    back : List ℕ
    back = encode_backlen (length (encode_element s))

All-insert :
    (xs ys : List (List ℕ)) (s : List ℕ)
    → All IsStorable (xs ++ ys)
    → IsStorable s
    → All IsStorable (xs ++ s ∷ ys)
All-insert [] ys s h k = (k, h)
All-insert (x ∷ xs) ys s h k = (h.0, All-insert xs ys s h.1 k)

module _ (c : ℕ) (xs ys : List (List ℕ)) (s junk : List ℕ) where
  abbrev stored : Payload
  stored = record { bytes = encode_element s; enclen = length (encode_element s) }

  -- The block and the address that come back.
  abbrev inserted : Inserted
  inserted = record { block = image (counted_up c) (xs ++ s ∷ ys) []; newp = some (offset xs) }

  image-inserted :
      (alloc : ℕ → Bool)
      → c < 2 ^ 16
      → total (xs ++ s ∷ ys) < 2 ^ 32
      → alloc (total (xs ++ s ∷ ys)) ≡ true
      → insert_at alloc (image c (xs ++ ys) junk) (some stored) false 0 (offset xs) ≡ some inserted
  image-inserted alloc known small granted =
      ap (λ t. insert_at alloc t (some stored) false 0 (offset xs)) (image_split c xs ys junk)
      ∙ insert_at-before (total (xs ++ ys)) c (entries xs) (entries ys ++ (lp_eof ∷ [])) junk
          (encode_element s) alloc (omega (arith, back_pos (length (encode_element s)))) in_use
          known (omega (arith, longer)) (subst (λ n. alloc n ≡ true) longer granted)
      ∙ ap₂ (λ n t. some (record { block = header n (counted_up c) t; newp = some (offset xs) }))
          (sym longer) (entries_with xs ys s)
    where
      longer :
          total (xs ++ s ∷ ys)
          ≡ total (xs ++ ys)
            + (length (encode_element s) + length (encode_backlen (length (encode_element s))))
      longer = length-entries_with xs ys s

      in_use : total (xs ++ ys) ≡ 6 + length (entries xs) + length (entries ys ++ (lp_eof ∷ []))
      in_use = omega (
        arith,
        ap length (entries-append xs ys),
        length-append (entries xs) (entries ys),
        length-append (entries ys) (lp_eof ∷ []),
      )

-- When a listpack holds `xs ++ ys`, the text can be stored, the new size fits 32 bits and the
-- allocation of that size succeeds, lpInsert of a text before the address behind `xs` returns a
-- listpack that holds `xs ++ s ∷ ys`, and that address as the place of the new element.
pub lp_insert-before :
    (alloc : ℕ → Bool) (lp : List ℕ) (xs ys : List (List ℕ)) (s : List ℕ)
    → IsListpack lp (xs ++ ys)
    → IsStorable s
    → total (xs ++ s ∷ ys) < 2 ^ 32
    → alloc (total (xs ++ s ∷ ys)) ≡ true
    → (r : Inserted) × (lp_insert alloc lp (some s) none (length s) (offset xs) before
        ≡ returns (some r))
      × (r.newp ≡ some (offset xs))
      × IsListpack r.block (xs ++ s ∷ ys)
unfolding lp_insert dispatch
lp_insert-before alloc lp xs ys s h k small granted =
    (inserted h.count xs ys s h.junk, run, refl, held)
  where
    run :
        lp_insert alloc lp (some s) none (length s) (offset xs) before
        ≡ returns (some (inserted h.count xs ys s h.junk))
    run =
        ap (λ pl. dispatch alloc lp pl before (offset xs))
          (payload-encode_element s (length s) (omega arith))
        ∙ ap returns (
            ap (λ t. insert_at alloc t (some (stored h.count xs ys s h.junk)) false 0 (offset xs))
              h.bytes
            ∙ image-inserted h.count xs ys s h.junk alloc (Counts-lt h.count (xs ++ ys) h.counts)
                small granted)

    held : IsListpack (image (counted_up h.count) (xs ++ s ∷ ys) []) (xs ++ s ∷ ys)
    held = record {
      count = counted_up h.count;
      junk = [];
      bytes = refl;
      counts = Counts-up h.count xs ys s h.counts;
      storable = All-insert xs ys s h.storable k;
      fits = small;
    }

-- When a listpack holds `es`, the text can be stored, the new size fits 32 bits and the allocation
-- of that size succeeds, lpAppend returns a listpack that holds `es` and then the text.
pub lp_append_lem :
    (alloc : ℕ → Bool) (lp : List ℕ) (es : List (List ℕ)) (s : List ℕ)
    → IsListpack lp es
    → IsStorable s
    → total (es ++ s ∷ []) < 2 ^ 32
    → alloc (total (es ++ s ∷ [])) ≡ true
    → (r : Inserted) × (lp_append alloc lp s ≡ returns (some r)) × IsListpack r.block (es ++ s ∷ [])
unfolding lp_append
lp_append_lem alloc lp es s h k small granted = (r.0, at_end ∙ r.1, r.3)
  where
    r :
        (r : Inserted) × (lp_insert alloc lp (some s) none (length s) (offset es) before
          ≡ returns (some r))
        × (r.newp ≡ some (offset es))
        × IsListpack r.block (es ++ s ∷ [])
    r =
        lp_insert-before alloc lp es [] s (subst (IsListpack lp) (sym (append-nil es)) h) k small
          granted

    eof : get_total_bytes lp - 1 ≡ offset es
    eof = omega (
      arith,
      ap get_total_bytes h.bytes,
      get_total_bytes-header (total es) h.count (entries es ++ (lp_eof ∷ h.junk)) h.fits,
    )

    at_end : lp_append alloc lp s ≡ lp_insert alloc lp (some s) none (length s) (offset es) before
    at_end = ap (λ p. lp_insert alloc lp (some s) none (length s) p before) eof
