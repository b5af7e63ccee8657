-- ===== src/Listpack/Walk/Step.antt =====
-- One step over an element of a well-formed block.
use mathlib.Core.Path.{ap₂}
use carrotdb.Base.{
  ℕ, ◌+◌, ◌-◌, ◌%◌, ◌^◌, ◌≤◌, ◌<◌, ◌≡◌, refl, sym, ap, ◌∙◌, subst, true, false, List, [], ◌∷◌, ◌++◌,
  append_assoc, append-nil, Option, none, some, Bool-cases, inl, inr, not, if◌then◌else◌, length,
  length-append, All, drop, ◌==◌, arith, ==_iff,
}
use carrotdb.Listpack.Encoding.{encode_element}
use carrotdb.Listpack.Backlen.{encode_backlen, encode_backlen_bytes, decode_backlen}
use carrotdb.Listpack.Backlen.RoundTrip.{decode_backlen-encode_backlen, length-encode_backlen}
use carrotdb.Listpack.Element.{
  byte, lp_eof, current_encoded_size_unsafe, current_encoded_size_bytes,
}
use carrotdb.Listpack.Element.Size.{Sized, is_walkable, IsWalkable, encode_element-Sized}
use carrotdb.Listpack.Insert.Refinement.{entry_pos}
use carrotdb.Listpack.Memory.{drop_at}
use carrotdb.Listpack.Header.{header, get_total_bytes, get_total_bytes-header}
use carrotdb.Listpack.Insert.{Outcome, returns, aborts, entry_length}
use carrotdb.Listpack.Insert.Content.{entries, entry, entries-append, total, offset, IsListpack}
use carrotdb.Listpack.Walk.{is_out_of_range, validate_next, assert_valid, lp_prev}

pub All-middle :
    (P : List ℕ → Type 0) (xs ys : List (List ℕ)) (e : List ℕ) → All P (xs ++ e ∷ ys) → P e
All-middle P [] ys e h = h.0
All-middle P (x ∷ xs) ys e h = All-middle P xs ys e h.1

-- The bytes from the address behind `xs` on.
pub at_offset :
    {lp : List ℕ} (xs ys : List (List ℕ)) (h : IsListpack lp (xs ++ ys))
    → drop (offset xs) lp ≡ entries ys ++ (lp_eof ∷ h.junk)
at_offset xs ys h =
    ap (drop (offset xs)) (
      h.bytes
      ∙ ap (λ t. header (total (xs ++ ys)) h.count (t ++ (lp_eof ∷ h.junk))) (entries-append xs ys)
      ∙ ap (header (total (xs ++ ys)) h.count)
          (append_assoc (entries xs) (entries ys) (lp_eof ∷ h.junk)))
    ∙ drop_at (offset xs) (header (total (xs ++ ys)) h.count (entries xs))
        (entries ys ++ (lp_eof ∷ h.junk)) (omega arith)

pub total_bytes :
    {lp : List ℕ} {es : List (List ℕ)} → IsListpack lp es → get_total_bytes lp ≡ total es
total_bytes {lp} {es} h =
    ap get_total_bytes h.bytes
    ∙ get_total_bytes-header (total es) h.count (entries es ++ (lp_eof ∷ h.junk)) h.fits

-- Where a walk arrives that is at the first of `ys` behind `xs`: null if `ys` is empty, and a failed
-- assertion at an integer outside int32_t.
abbrev pub arrival : List (List ℕ) → List (List ℕ) → Outcome (Option ℕ)
arrival xs [] = returns none
arrival xs (y ∷ ys) = if is_walkable y then returns (some (offset xs)) else aborts

-- The result of lpAssertValidEntry at an address, by that of lpValidateNext.
landed : ℕ → Option (Option ℕ) → Outcome (Option ℕ)
landed p none = aborts
landed p (some q) = returns (some p)

pub in_range : (n q : ℕ) → 6 ≤ q → q < n → is_out_of_range n q ≡ false
unfolding is_out_of_range
in_range n q lo hi = ground arith

module _ {lp : List ℕ} (xs ys : List (List ℕ)) (e : List ℕ) (h : IsListpack lp (xs ++ e ∷ ys)) where
  abbrev enc : List ℕ
  enc = encode_element e

  behind : List ℕ
  behind = encode_backlen (length enc) ++ (entries ys ++ (lp_eof ∷ h.junk))

  here_bytes : drop (offset xs) lp ≡ enc ++ behind
  unfolding behind entries entry
  here_bytes =
      at_offset xs (e ∷ ys) h
      ∙ append_assoc (entry e) (entries ys) (lp_eof ∷ h.junk)
      ∙ append_assoc enc (encode_backlen (length enc)) (entries ys ++ (lp_eof ∷ h.junk))

  sized : Sized (is_walkable e) enc behind
  sized = encode_element-Sized e behind (All-middle _ xs ys e h.storable)

  size_here : current_encoded_size_unsafe (drop (offset xs) lp) ≡ length enc
  size_here = ap current_encoded_size_unsafe here_bytes ∙ sized.size

  length-entry : length (entry e) ≡ length enc + encode_backlen_bytes (length enc)
  unfolding entry
  length-entry =
      length-append (encode_element e) (encode_backlen (length (encode_element e)))
      ∙ ap (λ n. length (encode_element e) + n) (length-encode_backlen (length (encode_element e)))

  pub entry_length_here : entry_length lp (offset xs) ≡ length (entry e)
  unfolding entry_length
  entry_length_here = ap (λ n. n + encode_backlen_bytes n) size_here ∙ sym length-entry

  pub offset_next : offset (xs ++ e ∷ []) ≡ offset xs + length (entry e)
  unfolding entries
  offset_next = omega (
    arith,
    ap length (entries-append xs (e ∷ [])),
    length-append (entries xs) (entry e ++ []),
    ap length (append-nil (entry e)),
  )

  total_split : total (xs ++ e ∷ ys) ≡ offset xs + length (entry e) + length (entries ys) + 1
  unfolding entries
  total_split = omega (
    arith,
    ap length (entries-append xs (e ∷ ys)),
    length-append (entries xs) (entry e ++ entries ys),
    length-append (entry e) (entries ys),
  )

  whole_bytes :
      lp
      ≡ header (total (xs ++ e ∷ ys)) h.count (entries xs ++ enc)
        ++ (encode_backlen (length enc) ++ (entries ys ++ (lp_eof ∷ h.junk)))
  unfolding entries entry
  whole_bytes =
      h.bytes
      ∙ ap (header (total (xs ++ e ∷ ys)) h.count) (
          ap (λ t. t ++ (lp_eof ∷ h.junk)) (entries-append xs (e ∷ ys))
          ∙ append_assoc (entries xs) (entry e ++ entries ys) (lp_eof ∷ h.junk)
          ∙ ap (λ t. entries xs ++ t)
              (append_assoc (entry e) (entries ys) (lp_eof ∷ h.junk)
                ∙ append_assoc enc (encode_backlen (length enc)) (entries ys ++ (lp_eof ∷ h.junk)))
          ∙ sym (
              append_assoc (entries xs) enc
                (encode_backlen (length enc) ++ (entries ys ++ (lp_eof ∷ h.junk)))))

  enc_fits : length enc < 2 ^ 35
  enc_fits = omega (arith, h.fits, total_split, length-entry)

  backlen_here : decode_backlen lp (offset xs + length (entry e) - 1) ≡ length enc
  backlen_here =
      ap₂ decode_backlen whole_bytes place
      ∙ decode_backlen-encode_backlen (header (total (xs ++ e ∷ ys)) h.count (entries xs ++ enc))
          (entries ys ++ (lp_eof ∷ h.junk)) (length enc) enc_fits
    where
      place :
          offset xs + length (entry e) - 1
          ≡ length (header (total (xs ++ e ∷ ys)) h.count (entries xs ++ enc))
            + encode_backlen_bytes (length enc)
            - 1
      place = omega (arith, length-entry, length-append (entries xs) enc)

  not_eof : (byte (drop (offset xs) lp) 0 == lp_eof) ≡ false
  not_eof = rw here_bytes (let s = sized.not_eof in ground arith)

  header_here : (current_encoded_size_bytes (drop (offset xs) lp) == 0) ≡ not (is_walkable e)
  header_here = rw here_bytes sized.header

  header_le : current_encoded_size_bytes (drop (offset xs) lp) ≤ length enc
  header_le = rw here_bytes sized.header_le

  entry_positive : 0 < length (entry e)
  entry_positive = entry_pos e (All-middle _ xs ys e h.storable)

  -- lpValidateNext accepts an element that is no integer outside int32_t, and goes on to the next.
  pub validate_next_here :
      IsWalkable e
      → validate_next lp (total (xs ++ e ∷ ys)) (offset xs) ≡ some (some (offset (xs ++ e ∷ [])))
  unfolding validate_next
  validate_next_here walks =
      rw
        (
          in_range (total (xs ++ e ∷ ys)) (offset xs) (omega arith)
              (omega (arith, total_split, entry_positive)),
          not_eof,
          size_here,
          entry_length_here,
          header_here,
          walks,
          in_range (total (xs ++ e ∷ ys))
              (offset xs + current_encoded_size_bytes (drop (offset xs) lp)) (omega arith)
              (omega (arith, total_split, header_le, length-entry, entry_positive)),
          in_range (total (xs ++ e ∷ ys)) (offset xs + length (entry e)) (omega arith)
              (omega (arith, total_split)),
          same_length,
        )
        (ap (λ n. some (some n)) (sym offset_next))
    where
      no_wrap :
          (decode_backlen lp (offset xs + length (entry e) - 1) + encode_backlen_bytes (length enc))
            % 2 ^ 64
          ≡ length (entry e)
      no_wrap = omega (arith, backlen_here, length-entry, h.fits, total_split)

      same_length :
          ((decode_backlen lp (offset xs + length (entry e) - 1)
                + encode_backlen_bytes (length enc))
              % 2 ^ 64
            == length (entry e))
          ≡ true
      same_length = (==_iff _ _).1 no_wrap

  -- It refuses any other one.
  pub validate_next_refused :
      is_walkable e ≡ false → validate_next lp (total (xs ++ e ∷ ys)) (offset xs) ≡ none
  unfolding validate_next
  validate_next_refused stuck = rw (
    in_range (total (xs ++ e ∷ ys)) (offset xs) (omega arith)
        (omega (arith, total_split, entry_positive)),
    not_eof,
    header_here,
    stuck,
  )

  -- The assertion of lpAssertValidEntry at the element.
  pub assert_valid_here : assert_valid lp (offset xs) ≡ arrival xs (e ∷ ys)
  unfolding assert_valid landed
  assert_valid_here =
      ap (λ n. landed (offset xs) (validate_next lp n (offset xs))) (total_bytes h)
      ∙ elim (Bool-cases (is_walkable e)) [
        | inl walks ↦ rw (walks, validate_next_here walks)
        | inr stuck ↦ rw (stuck, validate_next_refused stuck)
      ]

  pub first_byte : (byte (drop (offset xs) lp) 0 == lp_eof) ≡ false
  first_byte = not_eof

  -- The step to the left from behind the element.
  pub lp_prev_here : lp_prev lp (offset (xs ++ e ∷ [])) ≡ arrival xs (e ∷ ys)
  unfolding lp_prev
  lp_prev_here = rw (offset_next, backlen_here, not_first, back) assert_valid_here
    where
      not_first : (offset xs + length (entry e) == 6) ≡ false
      not_first = let k = entry_positive in ground arith

      back :
          offset xs + length (entry e) - 1 - (length enc + encode_backlen_bytes (length enc)) + 1
          ≡ offset xs
      back = omega (arith, length-entry, entry_positive)

-- Behind the last element stands the end mark.
pub end_byte :
    {lp : List ℕ} {es : List (List ℕ)}
    → IsListpack lp es
    → (byte (drop (offset es) lp) 0 == lp_eof) ≡ true
unfolding entries
end_byte {lp} {es} h = rw (at_offset es [] (subst (IsListpack lp) (sym (append-nil es)) h)) refl

pub lp_prev_first : (lp : List ℕ) → lp_prev lp (offset []) ≡ returns none
unfolding lp_prev entries
lp_prev_first lp = refl
