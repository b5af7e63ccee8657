-- ===== src/Listpack/Examples.antt =====
-- The theorems of the listpack on a block that holds the texts "ab" and "7".
use carrotdb.Base.{
  All, not, ◌==◌, ◌≤◌, ℕ, ◌+◌, ◌-◌, ◌≡◌, refl, inr, Bool, true, false, List, [], ◌∷◌, ◌++◌, none,
  some, length, length-append, suc, arith,
}
use carrotdb.Base.Int.{pos, negsuc, IsInt64}
use carrotdb.Base.Decimal.{print_i64}
use carrotdb.Listpack.Number.{string_to_int64, first_digit, sign, digits_loop, finish}
use carrotdb.Listpack.Number.RoundTrip.{string_to_int64-print}
use carrotdb.Listpack.Encoding.{encode_element, encode_integer, encode_get_type, encode_string}
use carrotdb.Listpack.Backlen.{encode_backlen, encode_backlen_bytes, decode_backlen, more}
use carrotdb.Listpack.Backlen.RoundTrip.{decode_backlen-encode_backlen}
use carrotdb.Listpack.Element.{
  current_encoded_size_unsafe, current_encoded_size_bytes, element_text, get_with_size, integer,
}
use carrotdb.Listpack.Element.Text.{element_text-encode_element}
use carrotdb.Listpack.Element.Integer.{get_with_size-encode_integer}
use carrotdb.Listpack.Element.Size.{is_short, is_walkable, IsWalkable, encode_element-sizes}
use carrotdb.Listpack.Header.{get_total_bytes}
use carrotdb.Listpack.Insert.{Inserted, before, returns, lp_insert, lp_append, lp_delete}
use carrotdb.Listpack.Insert.Content.{total, offset, image, entries, entry, IsListpack}
use carrotdb.Listpack.Insert.Refinement.{lp_insert-before, lp_append_lem}
use carrotdb.Listpack.Insert.Refusal.{lp_insert_refused}
use carrotdb.Listpack.Insert.Deletion.{lp_delete_lem}
use carrotdb.Listpack.Walk.{
  lp_first, lp_next, lp_prev, lp_seek, lp_length, lp_prepend, validate_integrity,
}
use carrotdb.Listpack.Walk.Sequence.{address, lp_first_lem, lp_next_lem, lp_prev_lem}
use carrotdb.Listpack.Walk.Step.{arrival}
use carrotdb.Listpack.Walk.Seek.{seek_position, lp_seek_lem}
use carrotdb.Listpack.Walk.Length.{lp_length_lem, lp_prepend_lem}
use carrotdb.Listpack.Walk.Integrity.{all_walkable, validate_integrity_lem}

abbrev pub granted : ℕ → Bool
granted n = true

abbrev pub ab : List ℕ
ab = b'a' ∷ b'b' ∷ []

abbrev pub seven : List ℕ
seven = b'7' ∷ []

abbrev pub texts : List (List ℕ)
texts = ab ∷ seven ∷ []

abbrev pub block : List ℕ
block = image 2 texts []

sizes : (length (entry ab) ≡ 4) × (length (entry seven) ≡ 2)
unfolding entry encode_element encode_get_type string_to_int64 encode_string encode_backlen more
    first_digit sign digits_loop finish encode_integer
sizes = (refl, refl)

total-texts : total texts ≡ 13
unfolding entries
total-texts =
    omega
      (arith, sizes, length-append (entry ab) (entry seven ++ []), length-append (entry seven) [])

total_three : total (ab ∷ ab ∷ seven ∷ []) ≡ 17
unfolding entries
total_three = omega (
  arith,
  sizes,
  length-append (entry ab) (entry ab ++ (entry seven ++ [])),
  length-append (entry ab) (entry seven ++ []),
  length-append (entry seven) [],
)

total_behind : total (ab ∷ seven ∷ ab ∷ []) ≡ 17
unfolding entries
total_behind = omega (
  arith,
  sizes,
  length-append (entry ab) (entry seven ++ (entry ab ++ [])),
  length-append (entry seven) (entry ab ++ []),
  length-append (entry ab) [],
)

pub block-IsListpack : IsListpack block texts
block-IsListpack = record {
  count = 2;
  junk = [];
  bytes = refl;
  counts = inr (refl, omega arith);
  storable = (omega arith, (omega arith, tt));
  fits = omega (arith, total-texts);
}

seven_is_a_number : string_to_int64 seven ≡ some (pos 7)
unfolding string_to_int64 sign first_digit digits_loop finish
seven_is_a_number = refl

pub ab-IsWalkable : IsWalkable ab
unfolding is_walkable is_short string_to_int64 sign first_digit digits_loop finish
ab-IsWalkable = refl

pub texts-IsWalkable : All IsWalkable texts
unfolding is_walkable is_short string_to_int64 sign first_digit digits_loop finish
texts-IsWalkable = (ab-IsWalkable, (refl, tt))

lp_insert-before_example :
    (r : Inserted) × (lp_insert granted block (some ab) none 2 (offset (ab ∷ [])) before
      ≡ returns (some r))
    × (r.newp ≡ some (offset (ab ∷ [])))
    × IsListpack r.block (ab ∷ ab ∷ seven ∷ [])
lp_insert-before_example =
    lp_insert-before granted block (ab ∷ []) (seven ∷ []) ab block-IsListpack (omega arith)
      (omega (arith, total_three)) refl

lp_append_lem_example :
    (r : Inserted) × (lp_append granted block ab ≡ returns (some r))
    × IsListpack r.block (ab ∷ seven ∷ ab ∷ [])
lp_append_lem_example =
    lp_append_lem granted block texts ab block-IsListpack (omega arith)
      (omega (arith, total_behind)) refl

lp_prepend_lem_example :
    (r : Inserted) × (lp_prepend granted block ab ≡ returns (some r))
    × IsListpack r.block (ab ∷ ab ∷ seven ∷ [])
lp_prepend_lem_example =
    lp_prepend_lem granted block texts ab block-IsListpack (ab-IsWalkable, tt) (omega arith)
      (omega (arith, total_three)) refl

lp_delete_lem_example :
    (r : Inserted) × (lp_delete granted block (offset []) ≡ returns (some r))
    × (r.newp ≡ address [] (seven ∷ []))
    × IsListpack r.block (seven ∷ [])
lp_delete_lem_example = lp_delete_lem granted block [] (seven ∷ []) ab block-IsListpack refl

lp_seek_lem_example : lp_seek block (negsuc 1) ≡ returns (seek_position texts (negsuc 1))
lp_seek_lem_example = lp_seek_lem block texts (negsuc 1) block-IsListpack texts-IsWalkable

lp_length_lem_example :
    (lp' : List ℕ) × (lp_length block ≡ some (returns (2, lp'))) × IsListpack lp' texts
lp_length_lem_example = lp_length_lem block texts block-IsListpack texts-IsWalkable

lp_first_lem_example : lp_first block ≡ arrival [] texts
lp_first_lem_example = lp_first_lem block texts block-IsListpack

lp_next_lem_example : lp_next block (offset []) ≡ arrival (ab ∷ []) (seven ∷ [])
lp_next_lem_example = lp_next_lem block [] (seven ∷ []) ab block-IsListpack

lp_prev_lem_example : lp_prev block (offset texts) ≡ arrival (ab ∷ []) (seven ∷ [])
lp_prev_lem_example = lp_prev_lem block (ab ∷ []) [] seven block-IsListpack

validate_integrity_lem_example :
    validate_integrity block (get_total_bytes block) true ≡ some (all_walkable texts)
validate_integrity_lem_example = validate_integrity_lem block texts true block-IsListpack

element_text-encode_element_example : element_text (encode_element ab ++ (b'x' ∷ [])) ≡ ab
element_text-encode_element_example = element_text-encode_element ab (b'x' ∷ []) (omega arith)

string_to_int64-print_example : (print_i64 (pos 7) ≡ seven) × IsInt64 (pos 7)
string_to_int64-print_example = string_to_int64-print seven (pos 7) seven_is_a_number

get_with_size-encode_integer_example :
    get_with_size (encode_integer (negsuc 299) ++ [])
    ≡ (integer (negsuc 299), some (suc (length (encode_integer (negsuc 299)))))
get_with_size-encode_integer_example =
    get_with_size-encode_integer (negsuc 299) [] (omega arith, omega arith)

encode_element-sizes_example :
    (current_encoded_size_unsafe (encode_element ab ++ (b'x' ∷ [])) ≡ length (encode_element ab))
    × ((current_encoded_size_bytes (encode_element ab ++ (b'x' ∷ [])) == 0) ≡ not (is_walkable ab))
    × (current_encoded_size_bytes (encode_element ab ++ (b'x' ∷ [])) ≤ length (encode_element ab))
encode_element-sizes_example = encode_element-sizes ab (b'x' ∷ []) (omega arith)

decode_backlen-encode_backlen_example :
    decode_backlen
      ((b'x' ∷ []) ++ (encode_backlen 20000 ++ []))
      (1 + encode_backlen_bytes 20000 - 1)
    ≡ 20000
decode_backlen-encode_backlen_example =
    decode_backlen-encode_backlen (b'x' ∷ []) [] 20000 (omega arith)

abbrev scarce : ℕ → Bool
scarce n = false

lp_insert_refused_example :
    lp_insert scarce block (some ab) none 2 (offset (ab ∷ [])) before ≡ returns none
lp_insert_refused_example =
    lp_insert_refused scarce block (ab ∷ []) (seven ∷ []) ab block-IsListpack (omega arith)
      (omega (arith, total_three)) (inr refl)
