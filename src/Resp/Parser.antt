-- ===== src/Resp/Parser.antt =====
-- parser/parser.cpp. A position is an index of the buffer; each loop reads the bytes that stand at
-- its position, and stops where they end.
use carrotdb.Base.{
  ℕ, zero, suc, ◌+◌, ◌-◌, ◌*◌, ◌%◌, ◌^◌, Bool, true, false, ◌&&◌, ◌||◌, not, List, [], ◌∷◌, ◌++◌,
  Option, none, some, length, take, drop, get_or, ltb, leb, ◌==◌, if◌then◌else◌,
}
use carrotdb.Base.Decimal.{is_digit}

pub data TokenType : Type 0 where
  bulk_string : TokenType
  array : TokenType
  unknown : TokenType

pub record ParsedToken : Type 0 where
  pub kind : TokenType
  pub start_pos : ℕ
  pub end_pos : ℕ
  pub token_length : ℕ

abbrev pub u64 : ℕ → ℕ
u64 n = n % 2 ^ 64

-- One more digit of a length, in 64 bits.
unfoldable pub add_digit : ℕ → ℕ → ℕ
add_digit len x = u64 (u64 (len * 10) + (x - b'0'))

-- The length before a '\r': the position of the '\r' and the number, or nothing at another byte.
-- The position is kept in either case.
unfoldable pub length_loop : List ℕ → ℕ → ℕ → Bool × ℕ × ℕ
length_loop [] pos len = (true, pos, len)
length_loop (x ∷ rest) pos len =
    let next = length_loop rest (pos + 1) (add_digit len x) in
    if x == b'\r' then (true, pos, len) else if is_digit x then next else (false, pos, len)

-- The '\r' and '\n' behind a length are passed over.
unfoldable pub after_length : Bool × ℕ × ℕ → Bool × ℕ × ℕ
after_length (true, pos, len) = (true, pos + 2, len)
after_length (false, pos, len) = (false, pos, len)

-- Whether there is a length, the position after it, and the length.
unfoldable pub calculate_length : List ℕ → ℕ → Bool × ℕ × ℕ
calculate_length buffer pos = after_length (length_loop (drop pos buffer) pos 0)

-- The first '\r' at or after a position, or the end.
unfoldable pub find_cr : List ℕ → ℕ → ℕ
find_cr [] pos = pos
find_cr (x ∷ rest) pos = let next = find_cr rest (pos + 1) in if x == b'\r' then pos else next

abbrev unknown_token : ParsedToken
unknown_token = record { kind = unknown; start_pos = 0; end_pos = 0; token_length = 0 }

-- The token of an array header, and the position after it.
unfoldable pub array_token : Bool × ℕ × ℕ → ParsedToken × ℕ
array_token (true, pos, len) =
    (record { kind = array; start_pos = 0; end_pos = 0; token_length = len }, pos)
array_token (false, pos, len) = (unknown_token, pos)

-- The token of a bulk string whose length is read, and the position after it.
unfoldable pub bulk_token : List ℕ → Bool × ℕ × ℕ → ParsedToken × ℕ
bulk_token buffer (true, pos, len) =
    let stop = find_cr (drop pos buffer) pos in
    (
      record { kind = bulk_string; start_pos = pos; end_pos = stop - 1; token_length = len },
      stop + 2,
    )
bulk_token buffer (false, pos, len) = (unknown_token, pos)

-- The next token of the read buffer, and the client's new read position.
unfoldable pub parse : List ℕ → ℕ → ParsedToken × ℕ
parse buffer pos =
    if ltb pos (length buffer) && (get_or buffer pos 0 == b'*')
    then array_token (calculate_length buffer (pos + 1))
    else if ltb pos (length buffer) && (get_or buffer pos 0 == b'$')
    then bulk_token buffer (calculate_length buffer (pos + 1))
    else (unknown_token, pos)

-- The first byte that is neither '\r' nor '\n'.
unfoldable pub skip_crlf : List ℕ → ℕ → ℕ
skip_crlf [] pos = pos
skip_crlf (x ∷ rest) pos =
    let next = skip_crlf rest (pos + 1) in if (x == b'\r') || (x == b'\n') then next else pos

-- One pass of the loop over a sequence: its end, a return of false, or an item and the next position.
-- An item that the pass adds before it fails stays in the output.
pub data Pass : Type 0 where
  finished : Pass
  rejected : Pass
  rejected_after : List ℕ → Pass
  item : List ℕ → ℕ → Pass

-- Whether a position holds '\r' and then '\n'.
unfoldable pub at_crlf : List ℕ → ℕ → Bool
at_crlf raw pos =
    not (leb (length raw) (pos + 1))
    && (get_or raw pos 0 == b'\r')
    && (get_or raw (pos + 1) 0 == b'\n')

-- The bytes of an item, from its first to the '\r' and '\n' after the last. The end of the item is
-- computed in 64 bits.
unfoldable pub item_pass : List ℕ → ℕ → ℕ → Pass
item_pass raw pos len =
    let after = u64 (pos + len) in
    let bytes = take len (drop pos raw) in
    if ltb (length raw) after
    then rejected
    else if at_crlf raw after
    then item bytes (after + 2)
    else rejected_after bytes

-- What follows the length.
unfoldable pub header_pass : List ℕ → Bool × ℕ × ℕ → Pass
header_pass raw (true, pos, len) = if at_crlf raw pos then item_pass raw (pos + 2) len else rejected
header_pass raw (false, pos, len) = rejected

unfoldable pub dollar_pass : List ℕ → ℕ → Pass
dollar_pass raw pos =
    if leb (length raw) pos
    then finished
    else if not (get_or raw pos 0 == b'$')
    then rejected
    else if leb (length raw) (pos + 1) || not (is_digit (get_or raw (pos + 1) 0))
    then rejected
    else header_pass raw (length_loop (drop (pos + 1) raw) (pos + 1) 0)

unfoldable pub sequence_pass : List ℕ → ℕ → Pass
sequence_pass raw pos = dollar_pass raw (skip_crlf (drop pos raw) pos)

-- The answer and the items that the output got; nothing when the fuel runs out.
unfoldable pub parse_sequence_from : ℕ → List ℕ → ℕ → List (List ℕ) → Option (Bool × List (List ℕ))
parse_sequence_from zero raw pos out = none
parse_sequence_from (suc fuel) raw pos out = elim (sequence_pass raw pos) [
  | finished ↦ some (true, out)
  | rejected ↦ some (false, out)
  | rejected_after bytes ↦ some (false, out ++ (bytes ∷ []))
  | item bytes next ↦ parse_sequence_from fuel raw next (out ++ (bytes ∷ []))
]

unfoldable pub parse_bulk_string_sequence :
    ℕ → List ℕ → List (List ℕ) → Option (Bool × List (List ℕ))
parse_bulk_string_sequence fuel raw out = parse_sequence_from fuel raw 0 out

-- What stands between the '+' and the '\r', with the checks after it.
unfoldable pub simple_text : List ℕ → ℕ → Bool × Option (List ℕ)
simple_text raw start =
    let stop = find_cr (drop start raw) start in
    let out = some (take (stop - start) (drop start raw)) in
    if ltb stop (length raw) && not (get_or raw stop 0 == b'\r')
    then (false, out)
    else if ltb (stop + 1) (length raw) && not (get_or raw (stop + 1) 0 == b'\n')
    then (false, out)
    else if ltb (length raw) (stop + 2)
    then (false, out)
    else (true, out)

-- The answer, and what is stored in the output.
unfoldable pub parse_simple_string : List ℕ → Bool × Option (List ℕ)
parse_simple_string raw =
    let pos = skip_crlf raw 0 in
    if leb (length raw) pos
    then (false, none)
    else if not (get_or raw pos 0 == b'+')
    then (false, none)
    else simple_text raw (pos + 1)
