-- ===== src/Commands/Termination.antt =====
-- CommandParser::parseCommand ends: each bulk string that it skips shortens the buffer.
use carrotdb.Base.{
  ℕ, zero, suc, ◌+◌, ◌<◌, ◌≤◌, ◌≡◌, refl, sym, ◌∙◌, List, [], ◌∷◌, some, length, drop, arith,
  le→ltb_false,
}
use carrotdb.Resp.Parser.{TokenType, bulk_string, array, unknown, parse}
use carrotdb.Commands.Doubles.{Doubles}
use carrotdb.Commands.Command.{unknow_command}
use carrotdb.Commands.Read.{next_text}
use carrotdb.Commands.Dispatch.{Parsed, parse_named, parse_command}

length-drop-suc : (k x : ℕ) (xs : List ℕ) → length (drop (suc k) (x ∷ xs)) ≤ length xs
length-drop-suc zero x xs = omega arith
length-drop-suc (suc k) x [] = omega arith
length-drop-suc (suc k) x (y ∷ xs) = omega (arith, length-drop-suc k y xs)

parse-empty : (n : ℕ) → (parse [] n).0.kind ≡ unknown
unfolding parse
parse-empty n = rw (le→ltb_false n 0 (omega arith)) refl

-- A buffer that holds a bulk string gets shorter.
shorter :
    (buffer : List ℕ) (start n : ℕ)
    → (parse buffer start).0.kind ≡ bulk_string
    → length (drop (n + 1) buffer) < length buffer
shorter [] start n e =
    absurd (let clash : unknown ≡ bulk_string = sym (parse-empty start) ∙ e in ground arith)
shorter (x ∷ xs) start n e =
    let size = length-drop-suc n x xs in
    let same : n + 1 ≡ suc n = omega arith in rw same (omega arith)

module _ {D : Type 0} ⦃f : Doubles D⦄ where
  by_kind :
      (kind : TokenType) (fuel n : ℕ) (buffer : List ℕ) (unknown_case array_case : Parsed D)
      → ((kind ≡ bulk_string)
          → (p : Parsed D) × (parse_command fuel (drop (n + 1) buffer) 0 ≡ some p))
      → (p : Parsed D) × (elim kind [
        | unknown ↦ some unknown_case
        | bulk_string ↦ parse_command fuel (drop (n + 1) buffer) 0
        | array ↦ some array_case
      ]
          ≡ some p)
  by_kind unknown fuel n buffer u a h = (u, refl)
  by_kind array fuel n buffer u a h = (a, refl)
  by_kind bulk_string fuel n buffer u a h = h refl

  -- For any buffer and start, one unit of fuel more than the buffer has bytes is enough for
  -- CommandParser::parseCommand to return, whatever bulk strings it skips.
  pub parse_command-enough :
      (fuel : ℕ) (buffer : List ℕ) (start : ℕ)
      → length buffer < fuel
      → (p : Parsed D) × (parse_command fuel buffer start ≡ some p)
  unfolding parse_command
  parse_command-enough zero buffer start enough = absurd (omega arith)
  parse_command-enough (suc fuel) buffer start enough =
      let first = parse buffer start in
      by_kind first.0.kind fuel first.0.end_pos buffer
        (record { command = unknow_command; read_buffer = buffer; position = first.1; bytes = 0 })
        (parse_named buffer start first.0.token_length (next_text buffer first.1))
        (λ e.
          parse_command-enough fuel (drop (first.0.end_pos + 1) buffer) 0
            (omega (arith, shorter buffer start first.0.end_pos e)))
