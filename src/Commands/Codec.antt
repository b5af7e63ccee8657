-- ===== src/Commands/Codec.antt =====
-- What the readers of parser/command-parser.cpp do on encoded bulk strings.
pub mod Options
pub mod Handlers
pub mod Words
pub mod RoundTrip
use carrotdb.Base.{
  ℕ, ◌+◌, ◌-◌, ◌^◌, ◌<◌, ◌≡◌, sym, ap, ◌∙◌, List, [], ◌∷◌, ◌++◌, append_assoc, append-nil, some,
  length, length-append, take, drop, take-append, subst, All, arith,
}
use carrotdb.Base.Decimal.{print_u64}
use carrotdb.Resp.Parser.{bulk_string, parse}
use carrotdb.Resp.Encode.{encode_bulk_string}
use carrotdb.Resp.RoundTrip.{
  frame, frames, tail_of, behind, frame-encode, frame-append, length-frame, drop_at,
}
use carrotdb.Resp.Tokens.{HasNoCr, parse-encode_bulk_string}
use carrotdb.Commands.Names.{Text}
use carrotdb.Commands.Print.{pair_args}
use carrotdb.Commands.Parse.Lists.{pairs, pair_of}
use carrotdb.Commands.Read.{
  token_text, if_bulk, as_bulk, next_bulk, as_text, next_text, add_some, collect,
}

-- A text that the token parser reads whole.
abbrev pub IsText : Text → Type 0
IsText t = HasNoCr t × (length t < 2 ^ 64)

-- A position of the buffer with these bytes behind it.
pub record At (raw : List ℕ) (n : ℕ) (rest : List ℕ) : Type 0 where
  pub front : List ℕ
  pub whole : raw ≡ front ++ rest
  pub place : n ≡ length front

unfoldable pub past : List Text → ℕ → ℕ
past [] n = n
past (s ∷ ss) n = past ss (behind s n)

module _ {raw : List ℕ} {n : ℕ} (s rest : List ℕ) where
  framed : (a : At raw n (frame s rest)) → raw ≡ (a.front ++ frame s []) ++ rest
  framed a =
      a.whole
      ∙ ap (λ t. a.front ++ t) (frame-append s rest)
      ∙ sym (append_assoc a.front (frame s []) rest)

  pub At-behind : At raw n (frame s rest) → At raw (behind s n) rest
  At-behind a = record {
    front = a.front ++ frame s [];
    whole = framed a;
    place = omega (arith, a.place, length-append a.front (frame s []), length-frame s []);
  }

  -- The token that is read there.
  token_here :
      At raw n (frame s rest)
      → IsText s
      → let start = n + 1 + length (print_u64 (length s)) + 2 in
        parse raw n ≡ (
          record {
            kind = bulk_string;
            start_pos = start;
            end_pos = start + length s - 1;
            token_length = length s;
          },
          behind s n,
        )
  token_here a t =
      ap (λ r. parse r n) (framed a ∙ ap (λ t. t ++ rest) (sym (frame-encode a.front s)))
      ∙ subst
          (λ m.
            let start = m + 1 + length (print_u64 (length s)) + 2 in
            parse (encode_bulk_string a.front s ++ rest) m ≡ (
              record {
                kind = bulk_string;
                start_pos = start;
                end_pos = start + length s - 1;
                token_length = length s;
              },
              behind s m,
            ))
          (sym a.place) (parse-encode_bulk_string a.front s rest t.0 t.1)

  -- The bytes between the ends of that token.
  text_here :
      At raw n (frame s rest)
      → let start = n + 1 + length (print_u64 (length s)) + 2 in
        take (start + length s - 1 + 1 - start) (drop start raw) ≡ s
  text_here a =
      let digits = print_u64 (length s) in
      let start = n + 1 + length digits + 2 in
      let front = (a.front ++ (b'$' ∷ digits)) ++ (b'\r' ∷ b'\n' ∷ []) in
      let whole : raw ≡ front ++ (s ++ (b'\r' ∷ b'\n' ∷ rest)) =
        a.whole
        ∙ sym (append_assoc a.front (b'$' ∷ digits) (tail_of s rest))
        ∙ sym (
            append_assoc (a.front ++ (b'$' ∷ digits)) (b'\r' ∷ b'\n' ∷ [])
              (s ++ (b'\r' ∷ b'\n' ∷ rest))) in
      let place : start ≡ length front = omega (
        arith,
        a.place,
        length-append a.front (b'$' ∷ digits),
        length-append (a.front ++ (b'$' ∷ digits)) (b'\r' ∷ b'\n' ∷ []),
      ) in
      let size : start + length s - 1 + 1 - start ≡ length s = omega arith in
      rw (size, drop_at raw front (s ++ (b'\r' ∷ b'\n' ∷ rest)) start whole place)
        (take-append s (b'\r' ∷ b'\n' ∷ rest))

  pub next_bulk-here : At raw n (frame s rest) → IsText s → next_bulk raw n ≡ (some s, behind s n)
  unfolding next_bulk as_bulk if_bulk token_text
  next_bulk-here a t =
      ap (as_bulk raw) (token_here a t) ∙ ap (λ w. (some w, behind s n)) (text_here a)

  pub next_text-here : At raw n (frame s rest) → IsText s → next_text raw n ≡ (s, behind s n)
  unfolding next_text as_text token_text
  next_text-here a t = ap (as_text raw) (token_here a t) ∙ ap (λ w. (w, behind s n)) (text_here a)

pub At-past :
    {raw : List ℕ} (ss : List Text) (rest : List ℕ) (n : ℕ)
    → At raw n (frames ss rest)
    → At raw (past ss n) rest
unfolding past
At-past [] rest n a = a
At-past (s ∷ ss) rest n a = At-past ss rest (behind s n) (At-behind s (frames ss rest) a)

-- The loop over the arguments keeps them all, in their order.
pub collect-here :
    {raw : List ℕ} (ss : List Text) (rest : List ℕ) (n : ℕ) (out : List Text)
    → At raw n (frames ss rest)
    → All IsText ss
    → collect (length ss) raw n out ≡ (out ++ ss, past ss n)
unfolding collect past add_some
collect-here [] rest n out a t = ap (λ l. (l, n)) (sym (append-nil out))
collect-here {raw = raw} (s ∷ ss) rest n out a t =
    ap (λ p. collect (length ss) raw p.1 (add_some out p.0))
      (next_bulk-here s (frames ss rest) a t.0)
    ∙ (collect-here ss rest (behind s n) (out ++ (s ∷ [])) (At-behind s (frames ss rest) a) t.1
        ∙ ap (λ l. (l, past ss (behind s n))) (append_assoc out (s ∷ []) ss))

-- The loop over the pairs keeps them all, in their order.
pub pairs-here :
    {raw : List ℕ} (fs : List (Text × Text)) (rest : List ℕ) (n : ℕ) (out : List (Text × Text))
    → At raw n (frames (pair_args fs) rest)
    → All IsText (pair_args fs)
    → pairs (length (pair_args fs)) raw n out ≡ (out ++ fs, past (pair_args fs) n)
unfolding pairs pair_of past add_some pair_args
pairs-here [] rest n out a t = ap (λ l. (l, n)) (sym (append-nil out))
pairs-here {raw = raw} ((field, value) ∷ fs) rest n out a (tf, (tv, ts)) =
    let read_field = next_bulk-here field (frame value (frames (pair_args fs) rest)) a tf in
    let at_value = At-behind field (frame value (frames (pair_args fs) rest)) a in
    let read_value = next_bulk-here value (frames (pair_args fs) rest) at_value tv in
    ap
      (λ p.
        pairs (length (pair_args fs)) raw (next_bulk raw p.1).1
          (add_some out (pair_of p.0 (next_bulk raw p.1).0)))
      read_field
    ∙ ap (λ p. pairs (length (pair_args fs)) raw p.1 (add_some out (pair_of (some field) p.0)))
        read_value
    ∙ pairs-here fs rest (behind value (behind field n)) (out ++ ((field, value) ∷ []))
        (At-behind value (frames (pair_args fs) rest) at_value) ts
    ∙ ap (λ l. (l, past (pair_args fs) (behind value (behind field n))))
        (append_assoc out ((field, value) ∷ []) fs)
