-- ===== src/Commands/Codec/RoundTrip.antt =====
-- CommandParser::parseCommand on what Command::to_resp prints: the commands that a master sends to
-- its replicas.
use carrotdb.Base.{
  ℕ, suc, ◌+◌, ◌-◌, ◌^◌, ◌<◌, ◌≡◌, refl, sym, ap, ◌∙◌, List, [], ◌∷◌, ◌++◌, append_assoc, some,
  length, length-append, drop, All, arith,
}
use carrotdb.Resp.Encode.{encode_array_header}
use carrotdb.Resp.Parser.{array, unknown, bulk_string, parse}
use carrotdb.Resp.Tokens.{parse-encode_array_header}
use carrotdb.Resp.RoundTrip.{frame, frames, behind, frame-append, frames-encode, drop_at}
use carrotdb.Commands.Names.{Text}
use carrotdb.Commands.Doubles.{Doubles}
use carrotdb.Commands.Command.{Command, unknow_command}
use carrotdb.Commands.Print.{counted, to_resp}
use carrotdb.Commands.Read.{next_text}
use carrotdb.Commands.Dispatch.{finish_command, parse_named, parse_command}
use carrotdb.Commands.Codec.{IsText, At, At-behind, At-past, past, next_text-here}
use carrotdb.Commands.Codec.Words.{Carries, to_resp-Carries, dispatch-Carries}

frames-append : (ss : List Text) (rest : List ℕ) → frames ss rest ≡ frames ss [] ++ rest
frames-append [] rest = refl
frames-append (s ∷ ss) rest =
    ap (frame s) (frames-append ss rest)
    ∙ frame-append s (frames ss [] ++ rest)
    ∙ sym (append_assoc (frame s []) (frames ss []) rest)
    ∙ ap (λ t. t ++ rest) (sym (frame-append s (frames ss [])))

module _ {D : Type 0} ⦃f : Doubles D⦄ where
  -- A command that reaches to a position is cut out of the buffer.
  finish-here :
      {raw : List ℕ} (cmd : Command D) (at end : ℕ) (whole rest : List ℕ)
      → raw ≡ whole ++ rest
      → At raw end rest
      → finish_command raw 0 at (some (cmd, end))
        ≡ record { command = cmd; read_buffer = rest; position = 0; bytes = length whole }
  unfolding finish_command
  finish-here {raw = raw} cmd at end whole rest e a =
      let skipped : drop (end - 0) raw ≡ rest =
        drop_at raw a.front rest (end - 0) a.whole (omega (arith, a.place)) in
      let size : end - 0 ≡ length whole = omega (
        arith,
        a.place,
        ap length (sym e ∙ a.whole),
        length-append whole rest,
        length-append a.front rest,
      ) in
      ap (λ r. record { command = cmd; read_buffer = r; position = 0; bytes = end - 0 }) skipped
      ∙ ap (λ m. record { command = cmd; read_buffer = rest; position = 0; bytes = m }) size

  -- CommandParser::parseCommand reads what to_resp prints for a command of Carries (a command
  -- without a double), whose texts hold no '\r' and fewer than 2 ^ 64 bytes, with fewer than 2 ^ 31
  -- arguments, back as that command, with any bytes behind it: it leaves those bytes in the buffer
  -- and counts the bytes that were printed.
  pub parse_command-to_resp :
      {cmd : Command D} {name : Text} {args : List Text} (fuel : ℕ) (rest : List ℕ)
      → Carries cmd name args
      → All IsText (name ∷ args)
      → length args < 2 ^ 31
      → parse_command (suc fuel) (to_resp cmd ++ rest) 0
        ≡ some (record {
          command = cmd;
          read_buffer = rest;
          position = 0;
          bytes = length (to_resp cmd);
        })
  unfolding parse_command parse_named counted
  parse_command-to_resp {cmd = cmd} {name = name} {args = args} fuel rest c t small =
      let header = encode_array_header [] (1 + length args) in
      let raw = to_resp cmd ++ rest in
      let e : raw ≡ header ++ frames (name ∷ args) rest =
        ap (λ t. t ++ rest) (to_resp-Carries c ∙ frames-encode header (name ∷ args))
        ∙ append_assoc header (frames (name ∷ args) []) rest
        ∙ ap (λ t. header ++ t) (sym (frames-append (name ∷ args) rest)) in
      let a : At raw (length header) (frames (name ∷ args) rest) = record {
        front = header;
        whole = e;
        place = refl;
      } in
      let first : parse raw 0 ≡ (
        record { kind = array; start_pos = 0; end_pos = 0; token_length = 1 + length args },
        length header,
      ) =
        ap (λ r. parse r 0) e
        ∙ parse-encode_array_header [] (frames (name ∷ args) rest) (1 + length args)
            (omega arith) in
      let end = past args (behind name (length header)) in
      let b = At-behind name (frames args rest) a in
      ap
        (λ p. elim p.0.kind [
          | unknown ↦
              some
                (record { command = unknow_command; read_buffer = raw; position = p.1; bytes = 0 })
          | bulk_string ↦ parse_command fuel (drop (p.0.end_pos + 1) raw) 0
          | array ↦ some (parse_named raw 0 p.0.token_length (next_text raw p.1))
        ])
        first
      ∙ ap (λ p. some (parse_named raw 0 (1 + length args) p))
          (next_text-here name (frames args rest) a t.0)
      ∙ ap (λ o. some (finish_command raw 0 (behind name (length header)) o))
          (dispatch-Carries rest (behind name (length header)) c t.1 small b)
      ∙ ap some (
          finish-here cmd (behind name (length header)) end (to_resp cmd) rest refl
            (At-past args rest (behind name (length header)) b))
