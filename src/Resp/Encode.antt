-- ===== src/Resp/Encode.antt =====
-- The encoders of utils/utils.h: each appends to a buffer, which is the first argument.
use carrotdb.Base.{ℕ, List, [], ◌∷◌, ◌++◌, length}
use carrotdb.Base.Int.{ℤ}
use carrotdb.Base.Decimal.{print_u64, print_i64}

abbrev pub crlf : List ℕ
crlf = b'\r' ∷ b'\n' ∷ []

unfoldable pub encode_simple_string : List ℕ → List ℕ → List ℕ
encode_simple_string buffer str = ((buffer ++ (b'+' ∷ [])) ++ str) ++ crlf

unfoldable pub encode_bulk_string : List ℕ → List ℕ → List ℕ
encode_bulk_string buffer str =
    ((((buffer ++ (b'$' ∷ [])) ++ print_u64 (length str)) ++ crlf) ++ str) ++ crlf

unfoldable pub encode_integer_reply : List ℕ → ℤ → List ℕ
encode_integer_reply buffer value = ((buffer ++ (b':' ∷ [])) ++ print_i64 value) ++ crlf

unfoldable pub encode_array_header : List ℕ → ℕ → List ℕ
encode_array_header buffer count = ((buffer ++ (b'*' ∷ [])) ++ print_u64 count) ++ crlf

-- The loop over the items of an array.
unfoldable pub encode_items : List ℕ → List (List ℕ) → List ℕ
encode_items buffer [] = buffer
encode_items buffer (item ∷ items) = encode_items (encode_bulk_string buffer item) items

unfoldable pub encode_bulk_string_array : List ℕ → List (List ℕ) → List ℕ
encode_bulk_string_array buffer items =
    encode_items (encode_array_header buffer (length items)) items
