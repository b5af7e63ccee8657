-- ===== src/Resp/Tokens.antt =====
-- Parser::Parse on what the encoders write: the client's side of the protocol.
use carrotdb.Base.{
  ℕ, ◌+◌, ◌-◌, ◌^◌, ◌<◌, ◌≡◌, refl, sym, ap, ◌∙◌, true, false, List, [], ◌∷◌, ◌++◌, append_assoc,
  length, length-append, drop, ◌==◌, some, take, take-append, le→ltb_false, arith, All,
}
use carrotdb.Base.Decimal.{print_u64}
use carrotdb.Resp.Encode.{encode_bulk_string, encode_array_header, encode_simple_string}
use carrotdb.Resp.Digits.{length_loop-print}
use carrotdb.Resp.RoundTrip.{frame-encode, frame, tail_of, byte_at, drop_at}
use carrotdb.Resp.Parser.{
  parse, array_token, simple_text, parse_simple_string, skip_crlf, bulk_token, calculate_length,
  after_length, find_cr, array, bulk_string,
}

-- A text with no '\r' in it.
abbrev pub HasNoCr : List ℕ → Type 0
HasNoCr = All (λ x. (x == b'\r') ≡ false)

find_cr-HasNoCr :
    (str rest : List ℕ) (pos : ℕ)
    → HasNoCr str
    → find_cr (str ++ (b'\r' ∷ rest)) pos ≡ pos + length str
unfolding find_cr
find_cr-HasNoCr [] rest pos h = omega arith
find_cr-HasNoCr (x ∷ str) rest pos h =
    rw (h.0) (find_cr-HasNoCr str rest (pos + 1) h.1 ∙ omega arith)

calculate_length-print :
    (raw pre rest : List ℕ) (len n : ℕ)
    → raw ≡ pre ++ (print_u64 len ++ (b'\r' ∷ rest))
    → n ≡ length pre
    → len < 2 ^ 64
    → calculate_length raw n ≡ (true, n + length (print_u64 len) + 2, len)
unfolding calculate_length after_length
calculate_length-print raw pre rest len n e p small =
    rw (drop_at raw pre (print_u64 len ++ (b'\r' ∷ rest)) n e p, length_loop-print len rest n small)
      refl

bulk_token-here :
    (raw pre str rest : List ℕ) (n : ℕ)
    → raw ≡ pre ++ (str ++ (b'\r' ∷ rest))
    → n ≡ length pre
    → HasNoCr str
    → bulk_token raw (true, n, length str) ≡ (
      record {
        kind = bulk_string;
        start_pos = n;
        end_pos = n + length str - 1;
        token_length = length str;
      },
      n + length str + 2,
    )
unfolding bulk_token
bulk_token-here raw pre str rest n e p h =
    rw (drop_at raw pre (str ++ (b'\r' ∷ rest)) n e p, find_cr-HasNoCr str rest n h) refl

-- Parser::Parse reads an encoded bulk string whose text has no '\r' and fewer than 2 ^ 64 bytes,
-- wherever it stands in the buffer, as a token that spans exactly the text and holds its length,
-- and leaves the position behind it.
pub parse-encode_bulk_string :
    (pre str rest : List ℕ)
    → HasNoCr str
    → length str < 2 ^ 64
    → let start = length pre + 1 + length (print_u64 (length str)) + 2 in
      parse (encode_bulk_string pre str ++ rest) (length pre) ≡ (
        record {
          kind = bulk_string;
          start_pos = start;
          end_pos = start + length str - 1;
          token_length = length str;
        },
        start + length str + 2,
      )
unfolding parse
parse-encode_bulk_string pre str rest h small =
    let digits = print_u64 (length str) in
    let raw = encode_bulk_string pre str ++ rest in
    let n = length pre in
    let tail = b'\r' ∷ b'\n' ∷ (str ++ (b'\r' ∷ b'\n' ∷ rest)) in
    let e : raw ≡ pre ++ (b'$' ∷ (digits ++ tail)) =
      ap (λ t. t ++ rest) (frame-encode pre str)
      ∙ append_assoc pre (frame str []) rest
      ∙ ap (λ t. pre ++ (b'$' ∷ t)) (append_assoc digits (tail_of str []) rest)
      ∙ ap (λ t. pre ++ (b'$' ∷ (digits ++ (b'\r' ∷ b'\n' ∷ t))))
          (append_assoc str (b'\r' ∷ b'\n' ∷ []) rest) in
    let (c0, l0, r0) = byte_at raw pre (digits ++ tail) b'$' n e refl in
    let pre1 = pre ++ (b'$' ∷ []) in
    let pre3 = (pre1 ++ digits) ++ (b'\r' ∷ b'\n' ∷ []) in
    let e1 : raw ≡ pre1 ++ (digits ++ tail) =
      e ∙ sym (append_assoc pre (b'$' ∷ []) (digits ++ tail)) in
    let e3 : raw ≡ pre3 ++ (str ++ (b'\r' ∷ b'\n' ∷ rest)) =
      e1
      ∙ sym (append_assoc pre1 digits tail)
      ∙ sym (append_assoc (pre1 ++ digits) (b'\r' ∷ b'\n' ∷ []) (str ++ (b'\r' ∷ b'\n' ∷ rest))) in
    rw
      (
        r0,
        c0,
        calculate_length-print raw pre1 (b'\n' ∷ (str ++ (b'\r' ∷ b'\n' ∷ rest))) (length str)
            (n + 1) e1 (omega (arith, length-append pre (b'$' ∷ []))) small,
      )
      (bulk_token-here raw pre3 str (b'\n' ∷ rest) (n + 1 + length digits + 2) e3
        (omega (
          arith,
          length-append pre (b'$' ∷ []),
          length-append pre1 digits,
          length-append (pre1 ++ digits) (b'\r' ∷ b'\n' ∷ []),
        ))
        h)

-- Parser::Parse reads an encoded array header with a count below 2 ^ 64, wherever it stands in the
-- buffer, as an array token with that count, and leaves the position behind it.
pub parse-encode_array_header :
    (pre rest : List ℕ) (count : ℕ)
    → count < 2 ^ 64
    → parse (encode_array_header pre count ++ rest) (length pre) ≡ (
      record { kind = array; start_pos = 0; end_pos = 0; token_length = count },
      length (encode_array_header pre count),
    )
unfolding parse encode_array_header array_token
parse-encode_array_header pre rest count small =
    let digits = print_u64 count in
    let pre1 = pre ++ (b'*' ∷ []) in
    let raw = ((pre1 ++ digits) ++ (b'\r' ∷ b'\n' ∷ [])) ++ rest in
    let tail = b'\r' ∷ b'\n' ∷ rest in
    let e1 : raw ≡ pre1 ++ (digits ++ tail) =
      append_assoc (pre1 ++ digits) (b'\r' ∷ b'\n' ∷ []) rest ∙ append_assoc pre1 digits tail in
    let e : raw ≡ pre ++ (b'*' ∷ (digits ++ tail)) =
      e1 ∙ append_assoc pre (b'*' ∷ []) (digits ++ tail) in
    let (c0, l0, r0) = byte_at raw pre (digits ++ tail) b'*' (length pre) e refl in
    let read =
      calculate_length-print raw pre1 (b'\n' ∷ rest) count (length pre + 1) e1
        (omega (arith, length-append pre (b'*' ∷ []))) small in
    let end : length pre + 1 + length digits + 2
        ≡ length ((pre1 ++ digits) ++ (b'\r' ∷ b'\n' ∷ [])) =
      omega (
        arith,
        length-append pre (b'*' ∷ []),
        length-append pre1 digits,
        length-append (pre1 ++ digits) (b'\r' ∷ b'\n' ∷ []),
      ) in
    rw (r0, c0, read)
      (ap (λ p. (record { kind = array; start_pos = 0; end_pos = 0; token_length = count }, p)) end)

pub simple_text-here :
    (raw pre str rest : List ℕ) (n : ℕ)
    → raw ≡ pre ++ (str ++ (b'\r' ∷ b'\n' ∷ rest))
    → n ≡ length pre
    → HasNoCr str
    → simple_text raw n ≡ (true, some str)
unfolding simple_text
simple_text-here raw pre str rest n e p h =
    let stop : find_cr (drop n raw) n ≡ n + length str =
      ap (λ t. find_cr t n) (drop_at raw pre (str ++ (b'\r' ∷ b'\n' ∷ rest)) n e p)
      ∙ find_cr-HasNoCr str (b'\n' ∷ rest) n h in
    let e2 : raw ≡ (pre ++ str) ++ (b'\r' ∷ b'\n' ∷ rest) =
      e ∙ sym (append_assoc pre str (b'\r' ∷ b'\n' ∷ rest)) in
    let p2 : n + length str ≡ length (pre ++ str) = omega (arith, length-append pre str) in
    let (c1, l1, r1) = byte_at raw (pre ++ str) (b'\n' ∷ rest) b'\r' (n + length str) e2 p2 in
    let (c2, l2, r2) =
      byte_at raw ((pre ++ str) ++ (b'\r' ∷ [])) rest b'\n' (n + length str + 1)
        (e2 ∙ sym (append_assoc (pre ++ str) (b'\r' ∷ []) (b'\n' ∷ rest)))
        (omega (arith, p2, length-append (pre ++ str) (b'\r' ∷ []))) in
    let len : length raw ≡ n + length str + 2 + length rest =
      ap length e2 ∙ length-append (pre ++ str) (b'\r' ∷ b'\n' ∷ rest) ∙ omega (arith, p2) in
    let minus : (n + length str) - n ≡ length str = omega arith in
    let text : take (length str) (drop n raw) ≡ str =
      ap (take (length str)) (drop_at raw pre (str ++ (b'\r' ∷ b'\n' ∷ rest)) n e p)
      ∙ take-append str (b'\r' ∷ b'\n' ∷ rest) in
    rw
      (
        stop,
        minus,
        text,
        r1,
        c1,
        r2,
        c2,
        le→ltb_false (length raw) (n + length str + 2) (omega arith),
      )
      refl

-- parse_simple_string accepts what encode_simple_string wrote for a text with no '\r', and stores
-- the text.
pub parse_simple_string-encode_simple_string :
    (str : List ℕ)
    → HasNoCr str
    → parse_simple_string (encode_simple_string [] str) ≡ (true, some str)
unfolding parse_simple_string encode_simple_string skip_crlf
parse_simple_string-encode_simple_string str h =
    let raw = b'+' ∷ (str ++ (b'\r' ∷ b'\n' ∷ [])) in
    let (c0, l0, r0) = byte_at raw [] (str ++ (b'\r' ∷ b'\n' ∷ [])) b'+' 0 refl refl in
    rw (l0) (simple_text-here raw (b'+' ∷ []) str [] 1 refl refl h)
