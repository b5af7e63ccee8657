-- ===== src/Resp/Examples.antt =====
-- The theorems of the wire format on short texts, one of them with a '\r' in it.
use carrotdb.Base.{ℕ, ◌≡◌, refl, true, List, [], ◌∷◌, ◌++◌, some, length, arith}
use carrotdb.Base.Decimal.{print_u64}
use carrotdb.Resp.Encode.{
  encode_simple_string, encode_bulk_string, encode_array_header, encode_items,
}
use carrotdb.Resp.Parser.{
  bulk_string, array, parse, parse_bulk_string_sequence, parse_simple_string,
}
use carrotdb.Resp.RoundTrip.{parse_bulk_string_sequence-encode_items}
use carrotdb.Resp.Tokens.{
  parse-encode_bulk_string, parse-encode_array_header, parse_simple_string-encode_simple_string,
}

abbrev two_texts : List (List ℕ)
two_texts = (b'a' ∷ b'\r' ∷ []) ∷ [] ∷ []

two_texts_fit : length (encode_items [] two_texts) ≡ 14
unfolding encode_items encode_bulk_string print_u64
two_texts_fit = refl

parse_bulk_string_sequence-encode_items_example :
    parse_bulk_string_sequence 3 (encode_items [] two_texts) [] ≡ some (true, two_texts)
parse_bulk_string_sequence-encode_items_example =
    parse_bulk_string_sequence-encode_items two_texts 3 [] (omega (arith, two_texts_fit))
      (omega arith)

abbrev hi : List ℕ
hi = b'h' ∷ b'i' ∷ []

parse-encode_bulk_string_example :
    parse (encode_bulk_string hi hi ++ hi) 2
    ≡ (record { kind = bulk_string; start_pos = 6; end_pos = 7; token_length = 2 }, 10)
unfolding print_u64
parse-encode_bulk_string_example =
    parse-encode_bulk_string hi hi hi (refl, (refl, tt)) (omega arith)

parse-encode_array_header_example : parse (encode_array_header hi 3 ++ hi) 2 ≡ (
  record { kind = array; start_pos = 0; end_pos = 0; token_length = 3 },
  length (encode_array_header hi 3),
)
parse-encode_array_header_example = parse-encode_array_header hi hi 3 (omega arith)

parse_simple_string-encode_simple_string_example :
    parse_simple_string (encode_simple_string [] hi) ≡ (true, some hi)
parse_simple_string-encode_simple_string_example =
    parse_simple_string-encode_simple_string hi (refl, (refl, tt))
