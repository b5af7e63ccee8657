-- ===== src/Replication/Handshake.antt =====
-- The replica's handshake: what it makes of the master's answers, and of the snapshot behind the
-- last of them.
use carrotdb.Base.{
  ℕ, ◌+◌, ◌-◌, ◌%◌, ◌^◌, ◌<◌, ◌≡◌, refl, sym, ap, ◌∙◌, true, false, List, [], ◌∷◌, ◌++◌,
  append_assoc, none, some, length, length-append, take, drop, take-append, All-append, arith, ◌==◌,
  le→ltb_false, lt→ltb,
}
use carrotdb.Base.Decimal.{print_u64}
use carrotdb.Utils.{convert_positive_string_to_number}
use carrotdb.Utils.Print.{convert_positive_string_to_number-print}
use carrotdb.Resp.Encode.{encode_simple_string}
use carrotdb.Resp.Parser.{parse_simple_string, skip_crlf}
use carrotdb.Resp.Tokens.{HasNoCr, simple_text-here}
use carrotdb.Resp.RoundTrip.{drop_at, byte_at}
use carrotdb.Commands.Names.{Text}
use carrotdb.Commands.Codec.Options.{print_u64-IsText, length-print_u64}
use carrotdb.Replication.Slave.{
  SlaveReplicationClient, psync_sent, handshake_success, find_crlf, complete, skip_content,
  skip_header, skip_rdb, cut_line, on_response, on_answer, handle_handshake_read,
}
use carrotdb.Replication.Master.{psync_reply, fullresync_word}

-- The first line end is the one behind a text without '\r'.
find_crlf-HasNoCr :
    (str rest : List ℕ) (from : ℕ)
    → HasNoCr str
    → find_crlf (str ++ (b'\r' ∷ b'\n' ∷ rest)) from ≡ some (from + length str)
unfolding find_crlf
find_crlf-HasNoCr [] rest from h = ap some (omega arith)
find_crlf-HasNoCr (x ∷ []) rest from h = rw (h.0) (ap some (omega arith))
find_crlf-HasNoCr (x ∷ (y ∷ str)) rest from h =
    rw (h.0) (find_crlf-HasNoCr (y ∷ str) rest (from + 1) h.1 ∙ ap some (omega arith))

line-HasNoCr :
    (replication_id : Text)
    → HasNoCr replication_id
    → HasNoCr (fullresync_word ++ (replication_id ++ (b' ' ∷ b'0' ∷ [])))
line-HasNoCr replication_id h =
    All-append (λ x. (x == b'\r') ≡ false) fullresync_word (replication_id ++ (b' ' ∷ b'0' ∷ []))
      (refl, (refl, (refl, (refl, (refl, (refl, (refl, (refl, (refl, (refl, (refl, tt)))))))))))
      (All-append (λ x. (x == b'\r') ≡ false) replication_id (b' ' ∷ b'0' ∷ []) h
        (refl, (refl, tt)))

module _ {S : Type 0} where
  -- The length of a snapshot is read back.
  length_read :
      (n : ℕ) (body : List ℕ) (s : SlaveReplicationClient S)
      → n < 2 ^ 64
      → let raw = b'$' ∷ (print_u64 n ++ (b'\r' ∷ b'\n' ∷ body)) in
        s.read_buffer ≡ raw → skip_rdb raw s ≡ skip_content (some n) (1 + length (print_u64 n)) s
  unfolding skip_rdb skip_header
  length_read n body s small e =
      let digits = print_u64 n in
      let left = length digits in
      let number : take (1 + left - 1) (drop 1 s.read_buffer) ≡ digits =
        ap (λ k. take k (drop 1 s.read_buffer)) (omega arith)
        ∙ ap (λ b. take left (drop 1 b)) e
        ∙ take-append digits (b'\r' ∷ b'\n' ∷ body) in
      ap (λ o. skip_header o s) (find_crlf-HasNoCr digits body 1 (print_u64-IsText n small).0)
      ∙ ap (λ t. skip_content (convert_positive_string_to_number t) (1 + left) s) number
      ∙ ap (λ o. skip_content o (1 + left) s) (convert_positive_string_to_number-print n small)

  -- A snapshot that is there as a whole is cut out.
  skip_rdb-here :
      (content rest : List ℕ) (s : SlaveReplicationClient S)
      → length content < 2 ^ 63
      → let raw = b'$' ∷ (print_u64 (length content) ++ (b'\r' ∷ b'\n' ∷ (content ++ rest))) in
        s.read_buffer ≡ raw → skip_rdb raw s ≡ complete (record s { read_buffer = rest })
  unfolding skip_content
  skip_rdb-here content rest s small e =
      let digits = print_u64 (length content) in
      let end = 1 + length digits + 2 + length content in
      let short = length-print_u64 (length content) in
      let front = b'$' ∷ (digits ++ (b'\r' ∷ b'\n' ∷ content)) in
      let whole : s.read_buffer ≡ front ++ rest =
        e ∙ sym (ap (λ t. b'$' ∷ t) (append_assoc digits (b'\r' ∷ b'\n' ∷ content) rest)) in
      let size : end ≡ length front =
        omega (arith, length-append digits (b'\r' ∷ b'\n' ∷ content)) in
      let modulo : end % 2 ^ 64 ≡ end = omega arith in
      let whole_size : length s.read_buffer ≡ end + length rest =
        ap length whole ∙ length-append front rest ∙ omega (arith, size) in
      length_read (length content) (content ++ rest) s (omega arith) e
      ∙ rw (modulo, le→ltb_false (length s.read_buffer) end (omega arith))
          (ap (λ b. complete (record s { read_buffer = b }))
            (drop_at s.read_buffer front rest end whole size))

  -- One that is not is left, with its header.
  skip_rdb-part :
      (n : ℕ) (part : List ℕ) (s : SlaveReplicationClient S)
      → n < 2 ^ 63
      → length part < n
      → let raw = b'$' ∷ (print_u64 n ++ (b'\r' ∷ b'\n' ∷ part)) in
        s.read_buffer ≡ raw → skip_rdb raw s ≡ s
  unfolding skip_content
  skip_rdb-part n part s small short e =
      let digits = print_u64 n in
      let end = 1 + length digits + 2 + n in
      let few = length-print_u64 n in
      let modulo : end % 2 ^ 64 ≡ end = omega arith in
      let size : length s.read_buffer < end =
        omega (arith, ap length e, length-append digits (b'\r' ∷ b'\n' ∷ part)) in
      length_read n part s (omega arith) e
      ∙ rw (modulo, lt→ltb (length s.read_buffer) end size) refl

  line_read :
      (line tail : List ℕ) (s : SlaveReplicationClient S)
      → HasNoCr line
      → s.replication_status ≡ psync_sent
      → s.read_buffer ≡ b'+' ∷ (line ++ (b'\r' ∷ b'\n' ∷ tail))
      → handle_handshake_read s ≡ skip_rdb tail (record s { read_buffer = tail })
  unfolding handle_handshake_read on_answer on_response cut_line parse_simple_string skip_crlf
  line_read line tail s h status e =
      let raw = b'+' ∷ (line ++ (b'\r' ∷ b'\n' ∷ tail)) in
      let (c0, l0, r0) = byte_at raw [] (line ++ (b'\r' ∷ b'\n' ∷ tail)) b'+' 0 refl refl in
      let answer : parse_simple_string raw ≡ (true, some line) =
        rw (l0) (simple_text-here raw (b'+' ∷ []) line tail 1 refl refl h) in
      let left : drop (0 + length (b'+' ∷ line) + 2) s.read_buffer ≡ tail =
        drop_at s.read_buffer ((b'+' ∷ line) ++ (b'\r' ∷ b'\n' ∷ [])) tail
          (0 + length (b'+' ∷ line) + 2)
          (e ∙ sym (append_assoc (b'+' ∷ line) (b'\r' ∷ b'\n' ∷ []) tail))
          (omega (arith, length-append (b'+' ∷ line) (b'\r' ∷ b'\n' ∷ []))) in
      ap (λ b. on_answer (parse_simple_string b) s) e
      ∙ ap (λ p. on_answer p s) answer
      ∙ ap (λ st. on_response st line s) status
      ∙ ap (λ b. cut_line (find_crlf b 0) s) e
      ∙ ap (λ o. cut_line o s) (find_crlf-HasNoCr (b'+' ∷ line) tail 0 (refl, h))
      ∙ ap (λ l. skip_rdb l (record s { read_buffer = l })) left

  -- A replica that has sent PSYNC, and whose buffer holds the whole answer of handle_psync, with an
  -- id without '\r' and a snapshot shorter than 2 ^ 63 bytes, and any bytes behind it, completes
  -- the handshake and keeps exactly the bytes behind.
  pub handle_handshake_read-psync_reply :
      (replication_id : Text) (content rest : List ℕ) (s : SlaveReplicationClient S)
      → HasNoCr replication_id
      → length content < 2 ^ 63
      → s.replication_status ≡ psync_sent
      → s.read_buffer ≡ psync_reply replication_id content ++ rest
      → handle_handshake_read s ≡ record s {
        replication_status = handshake_success;
        is_handshake_completed = true;
        read_buffer = rest;
      }
  unfolding psync_reply encode_simple_string complete
  handle_handshake_read-psync_reply replication_id content rest s h small status e =
      let line = fullresync_word ++ (replication_id ++ (b' ' ∷ b'0' ∷ [])) in
      let digits = print_u64 (length content) in
      let tail = b'$' ∷ (digits ++ (b'\r' ∷ b'\n' ∷ (content ++ rest))) in
      let shape : s.read_buffer ≡ b'+' ∷ (line ++ (b'\r' ∷ b'\n' ∷ tail)) =
        e
        ∙ append_assoc (b'+' ∷ (line ++ (b'\r' ∷ b'\n' ∷ [])))
            (b'$' ∷ (digits ++ (b'\r' ∷ b'\n' ∷ content))) rest
        ∙ append_assoc (b'+' ∷ line) (b'\r' ∷ b'\n' ∷ [])
            ((b'$' ∷ (digits ++ (b'\r' ∷ b'\n' ∷ content))) ++ rest)
        ∙ ap (λ t. b'+' ∷ (line ++ (b'\r' ∷ b'\n' ∷ (b'$' ∷ t))))
            (append_assoc digits (b'\r' ∷ b'\n' ∷ content) rest) in
      line_read line tail s (line-HasNoCr replication_id h) status shape
      ∙ skip_rdb-here content rest (record s { read_buffer = tail }) small refl

  -- placeholder
  pub handle_handshake_read-dollar :
      (t : List ℕ) (s : SlaveReplicationClient S)
      → s.read_buffer ≡ b'$' ∷ t
      → handle_handshake_read s ≡ s
  unfolding handle_handshake_read on_answer parse_simple_string skip_crlf
  handle_handshake_read-dollar t s e =
      let (c0, l0, r0) = byte_at (b'$' ∷ t) [] t b'$' 0 refl refl in
      let answer : parse_simple_string (b'$' ∷ t) ≡ (false, none) = rw (l0) refl in
      ap (λ b. on_answer (parse_simple_string b) s) e ∙ ap (λ p. on_answer p s) answer

  -- A replica that has sent PSYNC, and whose buffer holds a line of FULLRESYNC's form, the length
  -- of a snapshot below 2 ^ 63 and only a part of the snapshot, cuts the line and keeps the rest;
  -- and then, whatever bytes arrive behind it, the next read changes nothing: the handshake does
  -- not go on.
  pub handle_handshake_read-part :
      (line part more : List ℕ) (n : ℕ) (s : SlaveReplicationClient S)
      → HasNoCr line
      → n < 2 ^ 63
      → length part < n
      → s.replication_status ≡ psync_sent
      → let header = b'$' ∷ (print_u64 n ++ (b'\r' ∷ b'\n' ∷ part)) in
        s.read_buffer ≡ encode_simple_string [] line ++ header
        → (handle_handshake_read s ≡ record s { read_buffer = header })
          × (let later = record s { read_buffer = header ++ more } in
              handle_handshake_read later ≡ later)
  unfolding encode_simple_string
  handle_handshake_read-part line part more n s h small short status e =
      let tail = print_u64 n ++ (b'\r' ∷ b'\n' ∷ part) in
      (
        line_read line (b'$' ∷ tail) s h status
              (e ∙ append_assoc (b'+' ∷ line) (b'\r' ∷ b'\n' ∷ []) (b'$' ∷ tail))
            ∙ skip_rdb-part n part (record s { read_buffer = b'$' ∷ tail }) small short refl,
        handle_handshake_read-dollar (tail ++ more)
            (record s { read_buffer = b'$' ∷ (tail ++ more) }) refl,
      )
