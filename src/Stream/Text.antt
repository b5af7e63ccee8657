-- ===== src/Stream/Text.antt =====
-- The text of a stream id is read back, by XADD as by XRANGE.
use carrotdb.Base.{
  ℕ, ◌^◌, ◌<◌, ◌≡◌, refl, sym, ap, ◌∙◌, append-nil, Bool, true, false, List, [], ◌∷◌, ◌++◌, some,
  ◌==◌, arith, All,
}
use carrotdb.Base.Bytes.{same}
use carrotdb.Base.Decimal.{is_digit, print_u64}
use carrotdb.Utils.Print.{convert_positive_string_to_number-print, print_u64-digits}
use carrotdb.Resp.Digits.{print_u64-start}
use carrotdb.Stream.Id.{StreamId, IsU64, to_string}
use carrotdb.Stream.Entries.{
  split_dash, from_string, id_from_split, id_from_parts, seq_from, from_string_for_search,
  with_dash, search_id_from_parts,
}

split_dash-digits :
    (xs rest : List ℕ)
    → All (λ c. is_digit c ≡ true) xs
    → split_dash (xs ++ (b'-' ∷ rest)) ≡ some (xs, rest)
unfolding split_dash
split_dash-digits [] rest h = refl
split_dash-digits (x ∷ xs) rest h =
    let no_dash : (x == b'-') ≡ false = ground (arith, h.0) in
    rw (no_dash, split_dash-digits xs rest h.1) refl

-- A text that starts with a digit is none of the one-byte words.
same-start :
    (x c : ℕ) (xs : List ℕ)
    → is_digit x ≡ true
    → is_digit c ≡ false
    → same (x ∷ xs) (c ∷ []) ≡ false
unfolding same
same-start x c xs h k = let differ : (x == c) ≡ false = ground arith in rw differ refl

same-print :
    (n c : ℕ) (rest : List ℕ)
    → n < 2 ^ 64
    → is_digit c ≡ false
    → same (print_u64 n ++ rest) (c ∷ []) ≡ false
same-print n c rest fits k =
    let (x, t, eq, digit) = print_u64-start n fits in
    ap (λ l. same (l ++ rest) (c ∷ [])) eq ∙ same-start x c (t ++ rest) digit k

-- The two parts of an id's text.
parts : (s : StreamId) → IsU64 s → split_dash (to_string s) ≡ some (print_u64 s.ms, print_u64 s.seq)
unfolding to_string
parts s h = split_dash-digits (print_u64 s.ms) (print_u64 s.seq) (print_u64-digits s.ms h.0)

seq_from-print :
    (last : StreamId) (ms seq : ℕ) → seq < 2 ^ 64 → seq_from last ms (print_u64 seq) ≡ some seq
unfolding seq_from
seq_from-print last ms seq h =
    let no_star : same (print_u64 seq) (b'*' ∷ []) ≡ false =
      ap (λ t. same t (b'*' ∷ [])) (sym (append-nil (print_u64 seq)))
      ∙ same-print seq b'*' [] h refl in
    rw no_star (convert_positive_string_to_number-print seq h)

id_from_parts-print :
    (last s : StreamId) → IsU64 s → id_from_parts last (print_u64 s.ms) (print_u64 s.seq) ≡ some s
unfolding id_from_parts
id_from_parts-print last s h =
    rw
      (
        convert_positive_string_to_number-print s.ms h.0,
        id_from_parts,
        seq_from-print last s.ms s.seq h.1,
      )
      refl

search_id_from_parts-print :
    (s : StreamId)
    → IsU64 s
    → search_id_from_parts (some (print_u64 s.ms, print_u64 s.seq)) ≡ some s
unfolding search_id_from_parts
search_id_from_parts-print s h =
    rw
      (
        convert_positive_string_to_number-print s.ms h.0,
        search_id_from_parts,
        convert_positive_string_to_number-print s.seq h.1,
      )
      refl

with_dash_lem :
    (str : List ℕ) (p : List ℕ × List ℕ) (is_end : Bool)
    → split_dash str ≡ some p
    → with_dash str is_end ≡ str
unfolding with_dash
with_dash_lem str p is_end e = rw (e, with_dash) refl

-- The text of an id whose numbers fit 64 bits names that id: for XADD whatever the clock and the
-- last id are, and for XRANGE as either end of the range.
pub from_string-to_string :
    (s last : StreamId) (now : ℕ) (is_end : Bool)
    → IsU64 s
    → (from_string last now (to_string s) ≡ some s)
      × (from_string_for_search (to_string s) is_end ≡ some s)
unfolding from_string from_string_for_search id_from_split
from_string-to_string s last now is_end h =
    let text = b'-' ∷ print_u64 s.seq in
    let no : (c : ℕ) → is_digit c ≡ false → same (to_string s) (c ∷ []) ≡ false =
      λ c k. unfold to_string in same-print s.ms c text h.0 k in
    (
      rw (no b'*' refl, parts s h) (id_from_parts-print last s h),
      rw
          (
            no b'-' refl,
            no b'+' refl,
            with_dash_lem (to_string s) (print_u64 s.ms, print_u64 s.seq) is_end (parts s h),
            parts s h,
          )
          (search_id_from_parts-print s h),
    )
