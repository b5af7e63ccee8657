-- ===== src/Listpack/Insert/Content.antt =====
-- What a listpack holds: the abstract view of a block as the list of its elements' texts.
use carrotdb.Base.{
  ℕ, ◌+◌, ◌^◌, ◌<◌, ◌≡◌, refl, sym, ap, ◌∙◌, ◌⊎◌, List, [], ◌∷◌, ◌++◌, append_assoc, length, All,
}
use carrotdb.Listpack.Encoding.{encode_element}
use carrotdb.Listpack.Backlen.{encode_backlen}
use carrotdb.Listpack.Element.{lp_eof}
use carrotdb.Listpack.Header.{header, lp_hdr_numele_unknown}

-- One element with its length, as lpInsert writes it.
unfoldable pub entry : List ℕ → List ℕ
entry e = encode_element e ++ encode_backlen (length (encode_element e))

unfoldable pub entries : List (List ℕ) → List ℕ
entries [] = []
entries (e ∷ es) = entry e ++ entries es

pub entries-append : (xs ys : List (List ℕ)) → entries (xs ++ ys) ≡ entries xs ++ entries ys
unfolding entries
entries-append [] ys = refl
entries-append (x ∷ xs) ys =
    ap (λ t. entry x ++ t) (entries-append xs ys)
    ∙ sym (append_assoc (entry x) (entries xs) (entries ys))

-- The bytes in use, and the address behind the elements `xs`.
abbrev pub total : List (List ℕ) → ℕ
total es = 7 + length (entries es)

abbrev pub offset : List (List ℕ) → ℕ
offset xs = 6 + length (entries xs)

-- The whole block, with the count `c` in its header and bytes that are not in use behind it.
abbrev pub image : ℕ → List (List ℕ) → List ℕ → List ℕ
image c es junk = header (total es) c (entries es ++ (lp_eof ∷ junk))

-- The length of a stored text leaves room for five header bytes in a uint32_t.
abbrev pub IsStorable : List ℕ → Type 0
IsStorable e = length e + 5 < 2 ^ 32

-- The count in the header is the number of the elements, or it is marked unknown.
abbrev pub Counts : ℕ → List (List ℕ) → Type 0
Counts c es = (c ≡ lp_hdr_numele_unknown) ⊎ ((c ≡ length es) × (length es < lp_hdr_numele_unknown))

pub record IsListpack (lp : List ℕ) (es : List (List ℕ)) : Type 0 where
  pub count : ℕ
  pub junk : List ℕ
  pub bytes : lp ≡ image count es junk
  pub counts : Counts count es
  pub storable : All IsStorable es
  pub fits : total es < 2 ^ 32
