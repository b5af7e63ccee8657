-- ===== src/Commands/Codec/Handlers.antt =====
-- What the functions of parser/command-parser.cpp make of the arguments that parser/command.h
-- prints for a command.
use carrotdb.Base.{
  ℕ, ◌+◌, ◌-◌, ◌^◌, ◌<◌, ◌≡◌, ap, ◌∙◌, List, [], ◌∷◌, ◌++◌, Option, none, some, length, All, arith,
}
use carrotdb.Base.Decimal.{print_u64}
use carrotdb.Resp.RoundTrip.{frame, frames, behind}
use carrotdb.Utils.Print.{convert_positive_string_to_number-print}
use carrotdb.Commands.Names.{Text, ex_word, px_word}
use carrotdb.Commands.Command.{Command, set_command, lpop_command, xadd_command, xrange_command}
use carrotdb.Commands.Print.{option_args, pair_args}
use carrotdb.Commands.Read.{next_bulk, required, collect}
use carrotdb.Commands.Parse.Keys.{parse_set, set_of, with_key, set_flags}
use carrotdb.Commands.Parse.Lists.{
  made, parse_lpop, lpop_of, bulk_count, count_of, parse_xadd, xadd_of, parse_xrange, pairs,
}
use carrotdb.Commands.Parse.Sets.{key_and_member}
use carrotdb.Commands.Codec.{
  IsText, At, At-behind, At-past, past, next_bulk-here, collect-here, pairs-here,
}
use carrotdb.Commands.Codec.Options.{Fits, set_flags-here, print_u64-IsText}

module _ {D : Type 0} {raw : List ℕ} where
  -- The handlers' continuation gets the text and the position behind it.
  required-here :
      (s : Text) (rest : List ℕ) (n : ℕ) (k : Text → ℕ → Command D × ℕ)
      → At raw n (frame s rest)
      → IsText s
      → required (next_bulk raw n) k ≡ k s (behind s n)
  unfolding required
  required-here s rest n k a t = ap (λ p. required p k) (next_bulk-here s rest a t)

  required_two :
      (s t : Text) (rest : List ℕ) (n : ℕ) (k : Text → Text → ℕ → Command D × ℕ)
      → At raw n (frames (s ∷ t ∷ []) rest)
      → IsText s
      → IsText t
      → required (next_bulk raw n) (λ x at. required (next_bulk raw at) (λ y at2. k x y at2))
        ≡ k s t (past (s ∷ t ∷ []) n)
  unfolding past
  required_two s t rest n k a fs ft =
      required-here s (frame t rest) n (λ x at. required (next_bulk raw at) (λ y at2. k x y at2)) a
        fs
      ∙ required-here t rest (behind s n) (λ y at2. k s y at2) (At-behind s (frame t rest) a) ft

  pub with_key-here :
      (make : Text → Command D) (key : Text) (rest : List ℕ) (n : ℕ)
      → At raw n (frame key rest)
      → IsText key
      → with_key make raw n ≡ (make key, behind key n)
  unfolding with_key
  with_key-here make key rest n a t = required-here key rest n (λ k at. (make k, at)) a t

  pub parse_set-here :
      (key value : Text) (ex px : Option ℕ) (rest : List ℕ) (total n : ℕ)
      → total ≡ 2 + length (option_args ex_word ex ++ option_args px_word px)
      → Fits ex
      → Fits px
      → IsText key
      → IsText value
      → let args = key ∷ value ∷ (option_args ex_word ex ++ option_args px_word px) in
        At raw n (frames args rest)
        → parse_set {D = D} raw total n ≡ (set_command key value ex px, past args n)
  unfolding parse_set past set_of
  parse_set-here key value ex px rest total n size fe fp tk tv a =
      let options = option_args ex_word ex ++ option_args px_word px in
      required_two key value (frames options rest) n
        (λ k v at. set_of k v (set_flags (total - 2) raw at none none)) a tk tv
      ∙ ap (λ m. set_of key value (set_flags m raw (past (key ∷ value ∷ []) n) none none))
          (omega arith)
      ∙ ap (set_of key value) (
          set_flags-here (past (key ∷ value ∷ []) n) ex px rest fe fp
            (At-past (key ∷ value ∷ []) (frames options rest) n a))

  -- A key and any number of texts behind it.
  pub keyed-here :
      (make : Text → List Text → Command D) (key : Text) (ss : List Text) (rest : List ℕ)
      (total n : ℕ)
      → total ≡ 1 + length ss
      → IsText key
      → All IsText ss
      → At raw n (frames (key ∷ ss) rest)
      → required (next_bulk raw n) (λ k at. made (make k) (collect (total - 1) raw at []))
        ≡ (make key ss, past (key ∷ ss) n)
  unfolding past made
  keyed-here make key ss rest total n size tk ts a =
      required-here key (frames ss rest) n (λ k at. made (make k) (collect (total - 1) raw at [])) a
        tk
      ∙ ap (λ m. made (make key) (collect m raw (behind key n) [])) (omega arith)
      ∙ ap (made (make key))
          (collect-here ss rest (behind key n) [] (At-behind key (frames ss rest) a) ts)

  pub parse_lpop-here :
      (key : Text) (count : ℕ) (rest : List ℕ) (n : ℕ)
      → count < 2 ^ 32
      → IsText key
      → At raw n (frames (key ∷ print_u64 count ∷ []) rest)
      → parse_lpop {D = D} raw 2 n
        ≡ (lpop_command key (some count), past (key ∷ print_u64 count ∷ []) n)
  unfolding parse_lpop lpop_of past bulk_count count_of
  parse_lpop-here key count rest n small t a =
      required-here key (frame (print_u64 count) rest) n (λ k at. lpop_of k 1 raw at) a t
      ∙ ap (λ p. (lpop_command key (bulk_count p.0), p.1))
          (next_bulk-here (print_u64 count) rest (At-behind key (frame (print_u64 count) rest) a)
            (print_u64-IsText count (omega arith)))
      ∙ ap (λ o. (lpop_command key (count_of o), past (key ∷ print_u64 count ∷ []) n))
          (convert_positive_string_to_number-print count (omega arith))
      ∙ ap (λ c. (lpop_command key (some c), past (key ∷ print_u64 count ∷ []) n)) (omega arith)

  pub parse_xadd-here :
      (key stream_id : Text) (fs : List (Text × Text)) (rest : List ℕ) (total n : ℕ)
      → total ≡ 2 + length (pair_args fs)
      → IsText key
      → IsText stream_id
      → All IsText (pair_args fs)
      → let args = key ∷ stream_id ∷ pair_args fs in
        At raw n (frames args rest)
        → parse_xadd {D = D} raw total n ≡ (xadd_command key stream_id fs, past args n)
  unfolding parse_xadd past xadd_of
  parse_xadd-here key stream_id fs rest total n size tk ti ts a =
      required_two key stream_id (frames (pair_args fs) rest) n
        (λ k i at. xadd_of k i (pairs (total - 2) raw at [])) a tk ti
      ∙ ap (λ m. xadd_of key stream_id (pairs m raw (past (key ∷ stream_id ∷ []) n) []))
          (omega arith)
      ∙ ap (xadd_of key stream_id) (
          pairs-here fs rest (past (key ∷ stream_id ∷ []) n) []
            (At-past (key ∷ stream_id ∷ []) (frames (pair_args fs) rest) n a) ts)

  pub key_and_member-here :
      (make : Text → Text → Command D) (key member : Text) (rest : List ℕ) (n : ℕ)
      → IsText key
      → IsText member
      → At raw n (frames (key ∷ member ∷ []) rest)
      → key_and_member make raw n ≡ (make key member, past (key ∷ member ∷ []) n)
  unfolding key_and_member
  key_and_member-here make key member rest n tk tm a =
      required_two key member rest n (λ k m at. (make k m, at)) a tk tm

  pub parse_xrange-here :
      (key start end : Text) (rest : List ℕ) (n : ℕ)
      → IsText key
      → IsText start
      → IsText end
      → At raw n (frames (key ∷ start ∷ end ∷ []) rest)
      → parse_xrange {D = D} raw n ≡ (xrange_command key start end, past (key ∷ start ∷ end ∷ []) n)
  unfolding parse_xrange past
  parse_xrange-here key start end rest n tk ts te a =
      required_two key start (frame end rest) n
        (λ k s at. required (next_bulk raw at) (λ e at2. (xrange_command k s e, at2))) a tk ts
      ∙ required-here end rest (past (key ∷ start ∷ []) n)
          (λ e at2. (xrange_command key start e, at2))
          (At-past (key ∷ start ∷ []) (frame end rest) n a) te
