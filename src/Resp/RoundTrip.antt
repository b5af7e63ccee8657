-- ===== src/Resp/RoundTrip.antt =====
-- parse_bulk_string_sequence reads back what encode_bulk_string wrote.
use carrotdb.Base.{
  ℕ, zero, suc, ◌+◌, ◌%◌, ◌^◌, ◌<◌, ◌≡◌, refl, sym, ap, ◌∙◌, true, false, List, [], ◌∷◌, ◌++◌,
  append_assoc, append-nil, some, length, length-append, take, drop, take-append, drop-append,
  get_or, get_or-append, ltb, leb, arith, le→ltb_false,
}
use carrotdb.Base.Decimal.{print_u64}
use carrotdb.Resp.Encode.{encode_bulk_string, encode_items}
use carrotdb.Resp.Digits.{length_loop-print, print_u64-start}
use carrotdb.Resp.Parser.{
  skip_crlf, Pass, item, at_crlf, item_pass, header_pass, dollar_pass, sequence_pass,
  parse_sequence_from, parse_bulk_string_sequence,
}

abbrev pub tail_of : List ℕ → List ℕ → List ℕ
tail_of str rest = b'\r' ∷ b'\n' ∷ (str ++ (b'\r' ∷ b'\n' ∷ rest))

-- A bulk string in front of other bytes.
abbrev pub frame : List ℕ → List ℕ → List ℕ
frame str rest = b'$' ∷ (print_u64 (length str) ++ tail_of str rest)

abbrev pub frames : List (List ℕ) → List ℕ → List ℕ
frames [] rest = rest
frames (s ∷ ss) rest = frame s (frames ss rest)

pub frame-append : (str rest : List ℕ) → frame str rest ≡ frame str [] ++ rest
frame-append str rest =
    let digits = print_u64 (length str) in
    ap (λ t. b'$' ∷ (digits ++ t))
      (ap (λ t. b'\r' ∷ b'\n' ∷ t) (sym (append_assoc str (b'\r' ∷ b'\n' ∷ []) rest)))
    ∙ ap (λ t. b'$' ∷ t) (sym (append_assoc digits (tail_of str []) rest))

leb-false : (a b : ℕ) → b < a → leb a b ≡ false
leb-false a b h = ground arith

pub byte_at :
    (raw pre rest : List ℕ) (c n : ℕ)
    → raw ≡ pre ++ (c ∷ rest)
    → n ≡ length pre
    → (get_or raw n 0 ≡ c) × (leb (length raw) n ≡ false) × (ltb n (length raw) ≡ true)
byte_at raw pre rest c n e p =
    let len : length raw ≡ length pre + suc (length rest) =
      ap length e ∙ length-append pre (c ∷ rest) in
    let idx : n ≡ length pre + 0 = omega arith in
    (
      ap (λ r. get_or r n 0) e
          ∙ ap (λ m. get_or (pre ++ (c ∷ rest)) m 0) idx
          ∙ get_or-append pre (c ∷ rest) 0 0,
      leb-false (length raw) n (omega arith),
      ground arith,
    )

pub at_crlf-here :
    (raw pre rest : List ℕ) (n : ℕ)
    → raw ≡ pre ++ (b'\r' ∷ b'\n' ∷ rest)
    → n ≡ length pre
    → at_crlf raw n ≡ true
unfolding at_crlf
at_crlf-here raw pre rest n e p =
    let (c1, l1, r1) = byte_at raw pre (b'\n' ∷ rest) b'\r' n e p in
    let (c2, l2, r2) =
      byte_at raw (pre ++ (b'\r' ∷ [])) rest b'\n' (n + 1)
        (e ∙ sym (append_assoc pre (b'\r' ∷ []) (b'\n' ∷ rest)))
        (omega (arith, length-append pre (b'\r' ∷ []))) in
    rw (l2, c1, c2) refl

pub drop_at :
    (raw pre rest : List ℕ) (n : ℕ) → raw ≡ pre ++ rest → n ≡ length pre → drop n raw ≡ rest
drop_at raw pre rest n e p =
    ap (λ m. drop m raw) p ∙ ap (drop (length pre)) e ∙ drop-append pre rest

item_pass-here :
    (raw pre str rest : List ℕ) (n : ℕ)
    → raw ≡ pre ++ (str ++ (b'\r' ∷ b'\n' ∷ rest))
    → n ≡ length pre
    → length raw < 2 ^ 64
    → item_pass raw n (length str) ≡ item str (n + length str + 2)
unfolding item_pass
item_pass-here raw pre str rest n e p fits =
    let len : length raw ≡ length pre + length (str ++ (b'\r' ∷ b'\n' ∷ rest)) =
      ap length e ∙ length-append pre (str ++ (b'\r' ∷ b'\n' ∷ rest)) in
    let len2 : length (str ++ (b'\r' ∷ b'\n' ∷ rest)) ≡ length str + suc (suc (length rest)) =
      length-append str (b'\r' ∷ b'\n' ∷ rest) in
    let after : (n + length str) % 2 ^ 64 ≡ n + length str = omega arith in
    let bytes : take (length str) (drop n raw) ≡ str =
      ap (take (length str)) (drop_at raw pre (str ++ (b'\r' ∷ b'\n' ∷ rest)) n e p)
      ∙ take-append str (b'\r' ∷ b'\n' ∷ rest) in
    rw
      (
        after,
        bytes,
        le→ltb_false (length raw) (n + length str) (omega arith),
        at_crlf-here raw (pre ++ str) rest (n + length str)
            (e ∙ sym (append_assoc pre str (b'\r' ∷ b'\n' ∷ rest)))
            (omega (arith, length-append pre str)),
      )
      refl

-- The position behind a bulk string that starts at a position.
abbrev pub behind : List ℕ → ℕ → ℕ
behind str n = n + 1 + length (print_u64 (length str)) + 2 + length str + 2

header_pass-here :
    (raw pre str rest : List ℕ) (n : ℕ)
    → raw ≡ pre ++ tail_of str rest
    → n ≡ length pre
    → length raw < 2 ^ 64
    → header_pass raw (true, n, length str) ≡ item str (n + 2 + length str + 2)
unfolding header_pass
header_pass-here raw pre str rest n e p fits =
    let body = str ++ (b'\r' ∷ b'\n' ∷ rest) in
    rw (at_crlf-here raw pre body n e p) (
      item_pass-here raw (pre ++ (b'\r' ∷ b'\n' ∷ [])) str rest (n + 2)
        (e ∙ sym (append_assoc pre (b'\r' ∷ b'\n' ∷ []) body))
        (omega (arith, length-append pre (b'\r' ∷ b'\n' ∷ []))) fits)

pub length-frame :
    (str rest : List ℕ)
    → length (frame str rest) ≡ length (print_u64 (length str)) + length str + length rest + 5
length-frame str rest = omega (
  arith,
  length-append (print_u64 (length str)) (tail_of str rest),
  length-append str (b'\r' ∷ b'\n' ∷ rest),
)

dollar_pass-here :
    (raw pre str rest : List ℕ) (n : ℕ)
    → raw ≡ pre ++ frame str rest
    → n ≡ length pre
    → length raw < 2 ^ 64
    → dollar_pass raw n ≡ item str (behind str n)
unfolding dollar_pass
dollar_pass-here raw pre str rest n e p fits =
    let len : length raw ≡ length pre + length (frame str rest) =
      ap length e ∙ length-append pre (frame str rest) in
    let small : length str < 2 ^ 64 = omega (arith, length-frame str rest) in
    let pre1 = pre ++ (b'$' ∷ []) in
    let digits = print_u64 (length str) in
    let e1 : raw ≡ pre1 ++ (digits ++ tail_of str rest) =
      e ∙ sym (append_assoc pre (b'$' ∷ []) (digits ++ tail_of str rest)) in
    let p1 : n + 1 ≡ length pre1 = omega (arith, length-append pre (b'$' ∷ [])) in
    let (c, t, eq, digit) = print_u64-start (length str) small in
    let (c0, l0, r0) = byte_at raw pre (digits ++ tail_of str rest) b'$' n e p in
    let (c1, l1, r1) =
      byte_at raw pre1 (t ++ tail_of str rest) c (n + 1)
        (e1 ∙ ap (λ d. pre1 ++ (d ++ tail_of str rest)) eq) p1 in
    rw
      (
        l0,
        c0,
        l1,
        c1,
        digit,
        drop_at raw pre1 (digits ++ tail_of str rest) (n + 1) e1 p1,
        length_loop-print (length str) (b'\n' ∷ (str ++ (b'\r' ∷ b'\n' ∷ rest))) (n + 1) small,
      )
      (header_pass-here raw (pre1 ++ digits) str rest (n + 1 + length digits)
        (e1 ∙ sym (append_assoc pre1 digits (tail_of str rest)))
        (omega (arith, p1, length-append pre1 digits)) fits)

skip_crlf-dollar : (rest : List ℕ) (pos : ℕ) → skip_crlf (b'$' ∷ rest) pos ≡ pos
unfolding skip_crlf
skip_crlf-dollar rest pos = refl

sequence_pass-here :
    (raw pre str rest : List ℕ) (n : ℕ)
    → raw ≡ pre ++ frame str rest
    → n ≡ length pre
    → length raw < 2 ^ 64
    → sequence_pass raw n ≡ item str (behind str n)
unfolding sequence_pass
sequence_pass-here raw pre str rest n e p fits =
    rw
      (
        drop_at raw pre (frame str rest) n e p,
        skip_crlf-dollar (print_u64 (length str) ++ tail_of str rest) n,
      )
      (dollar_pass-here raw pre str rest n e p fits)

sequence_pass-end : (raw : List ℕ) (n : ℕ) → n ≡ length raw → sequence_pass raw n ≡ Pass.finished
unfolding sequence_pass dollar_pass skip_crlf
sequence_pass-end raw n e =
    let none_left : drop n raw ≡ [] = drop_at raw raw [] n (sym (append-nil raw)) e in
    let over : leb (length raw) n ≡ true = ground arith in rw (none_left, over) refl

parse_sequence_from-frames :
    (items : List (List ℕ)) (fuel : ℕ) (raw pre : List ℕ) (n : ℕ) (out : List (List ℕ))
    → raw ≡ pre ++ frames items []
    → n ≡ length pre
    → length raw < 2 ^ 64
    → length items < fuel
    → parse_sequence_from fuel raw n out ≡ some (true, out ++ items)
unfolding parse_sequence_from
parse_sequence_from-frames items zero raw pre n out e p fits enough = absurd (omega arith)
parse_sequence_from-frames [] (suc fuel) raw pre n out e p fits enough =
    let e0 : raw ≡ pre = e ∙ append-nil pre in
    rw (sequence_pass-end raw n (p ∙ ap length (sym e0)), parse_sequence_from, append-nil out) refl
parse_sequence_from-frames (s ∷ ss) (suc fuel) raw pre n out e p fits enough =
    let whole = frame s [] in
    let parts : frame s (frames ss []) ≡ whole ++ frames ss [] = frame-append s (frames ss []) in
    rw (sequence_pass-here raw pre s (frames ss []) n e p fits, parse_sequence_from)
      (parse_sequence_from-frames ss fuel raw (pre ++ whole) (behind s n) (out ++ (s ∷ []))
          (e ∙ ap (λ t. pre ++ t) parts ∙ sym (append_assoc pre whole (frames ss [])))
          (omega (arith, p, length-append pre whole, length-frame s [])) fits (omega arith)
        ∙ ap (λ l. some (true, l)) (append_assoc out (s ∷ []) ss))

pub frame-encode : (buffer str : List ℕ) → encode_bulk_string buffer str ≡ buffer ++ frame str []
unfolding encode_bulk_string
frame-encode buffer str =
    let digits = print_u64 (length str) in
    ap (λ t. (t ++ str) ++ (b'\r' ∷ b'\n' ∷ []))
      (append_assoc (buffer ++ (b'$' ∷ [])) digits (b'\r' ∷ b'\n' ∷ []))
    ∙ append_assoc ((buffer ++ (b'$' ∷ [])) ++ (digits ++ (b'\r' ∷ b'\n' ∷ []))) str
        (b'\r' ∷ b'\n' ∷ [])
    ∙ append_assoc (buffer ++ (b'$' ∷ [])) (digits ++ (b'\r' ∷ b'\n' ∷ []))
        (str ++ (b'\r' ∷ b'\n' ∷ []))
    ∙ append_assoc buffer (b'$' ∷ [])
        ((digits ++ (b'\r' ∷ b'\n' ∷ [])) ++ (str ++ (b'\r' ∷ b'\n' ∷ [])))
    ∙ ap (λ t. buffer ++ (b'$' ∷ t))
        (append_assoc digits (b'\r' ∷ b'\n' ∷ []) (str ++ (b'\r' ∷ b'\n' ∷ [])))

pub frames-encode :
    (buffer : List ℕ) (items : List (List ℕ))
    → encode_items buffer items ≡ buffer ++ frames items []
unfolding encode_items
frames-encode buffer [] = sym (append-nil buffer)
frames-encode buffer (s ∷ ss) =
    ap (λ b. encode_items b ss) (frame-encode buffer s)
    ∙ frames-encode (buffer ++ frame s []) ss
    ∙ append_assoc buffer (frame s []) (frames ss [])
    ∙ ap (λ t. buffer ++ t) (sym (frame-append s (frames ss [])))

-- For texts whose encodings together are shorter than 2 ^ 64 bytes, parse_bulk_string_sequence
-- answers true on what encode_bulk_string wrote for them one after the other, with exactly those
-- texts behind what the output held, whatever bytes they contain; one pass for each text and one
-- more are enough.
pub parse_bulk_string_sequence-encode_items :
    (items : List (List ℕ)) (fuel : ℕ) (out : List (List ℕ))
    → length (encode_items [] items) < 2 ^ 64
    → length items < fuel
    → parse_bulk_string_sequence fuel (encode_items [] items) out ≡ some (true, out ++ items)
unfolding parse_bulk_string_sequence
parse_bulk_string_sequence-encode_items items fuel out fits enough =
    parse_sequence_from-frames items fuel (encode_items [] items) [] 0 out (frames-encode [] items)
      refl fits enough
