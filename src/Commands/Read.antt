-- ===== src/Commands/Read.antt =====
-- The pieces that the functions of parser/command-parser.cpp repeat: the next bulk string, and the
-- loops over the arguments. `data() + start_pos` and a length make the text of a token.
use carrotdb.Base.{
  ℕ, zero, suc, ◌+◌, ◌-◌, ◌*◌, ◌%◌, ◌^◌, List, [], ◌∷◌, ◌++◌, Option, none, some, take, drop, ltb,
  if◌then◌else◌,
}
use carrotdb.Base.Int.{ℤ, pos, negsuc}
use carrotdb.Base.Decimal.{is_digit}
use carrotdb.Resp.Parser.{TokenType, ParsedToken, bulk_string, array, unknown, parse}
use carrotdb.Commands.Names.{Text}
use carrotdb.Commands.Command.{Command, unknow_command}

unfoldable pub token_text : List ℕ → ParsedToken → Text
token_text buffer t = take (t.end_pos + 1 - t.start_pos) (drop t.start_pos buffer)

unfoldable pub if_bulk : TokenType → Text → Option Text
if_bulk bulk_string text = some text
if_bulk array text = none
if_bulk unknown text = none

unfoldable pub as_bulk : List ℕ → ParsedToken × ℕ → Option Text × ℕ
as_bulk buffer (t, at) = (if_bulk t.kind (token_text buffer t), at)

-- Parser::Parse, and the text where the token is a bulk string.
unfoldable pub next_bulk : List ℕ → ℕ → Option Text × ℕ
next_bulk buffer at = as_bulk buffer (parse buffer at)

-- Parser::Parse, and the text of the token whatever it is.
unfoldable pub as_text : List ℕ → ParsedToken × ℕ → Text × ℕ
as_text buffer (t, at) = (token_text buffer t, at)

unfoldable pub next_text : List ℕ → ℕ → Text × ℕ
next_text buffer at = as_text buffer (parse buffer at)

unfoldable pub add_some {ℓ} : {A : Type ℓ} → List A → Option A → List A
add_some out none = out
add_some out (some a) = out ++ (a ∷ [])

-- The loop over so many arguments that keeps the bulk strings; its result and the next step.
unfoldable pub collect : ℕ → List ℕ → ℕ → List Text → List Text × ℕ
collect zero buffer at out = (out, at)
collect (suc n) buffer at out =
    collect n buffer (next_bulk buffer at).1 (add_some out (next_bulk buffer at).0)

-- The digits in front of the first byte that is none, as convert_positive_string_to_number leaves
-- them in its output when it fails.
unfoldable pub number_so_far : Text → ℕ → ℕ
number_so_far [] number = number
number_so_far (x ∷ s) number =
    let rest = number_so_far s ((number * 10 % 2 ^ 64 + (x - b'0')) % 2 ^ 64) in
    if is_digit x then rest else number

-- The conversion of an unsigned number to int64_t.
unfoldable pub to_signed_64 : ℕ → ℤ
to_signed_64 n = if ltb n (2 ^ 63) then pos n else negsuc (2 ^ 64 - 1 - n)

module _ {D : Type 0} where
  -- A bulk string that has to be there: the command is unknown where it is not.
  unfoldable pub required : Option Text × ℕ → (Text → ℕ → Command D × ℕ) → Command D × ℕ
  required (none, at) k = (unknow_command, at)
  required (some t, at) k = k t at
