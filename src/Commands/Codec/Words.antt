-- ===== src/Commands/Codec/Words.antt =====
-- The words that parser/command.h prints for a command, and the branch of parseCommand that each
-- name takes.
use carrotdb.Base.{
  ℕ, ◌+◌, ◌*◌, ◌^◌, ◌<◌, ◌≡◌, refl, ap, ◌∙◌, List, [], ◌∷◌, ◌++◌, Option, none, some, length,
  length-append, All, arith,
}
use carrotdb.Base.Decimal.{print_u64}
use carrotdb.Resp.RoundTrip.{frames}
use carrotdb.Utils.{is_equal, equal_loop, tolower}
use carrotdb.Commands.Names.{
  Text, ping_word, echo_word, set_word, get_word, type_word, incr_word, rpush_word, lpush_word,
  llen_word, lpop_word, xadd_word, xrange_word, multi_word, exec_word, discard_word, zrank_word,
  zcard_word, zscore_word, zrem_word, ex_word, px_word,
}
use carrotdb.Commands.Doubles.{Doubles}
use carrotdb.Commands.Command.{
  Command, ping_command, echo_command, set_command, get_command, type_command, incr_command,
  rpush_command, lpush_command, llen_command, lpop_command, xadd_command, xrange_command,
  multi_command, exec_command, discard_command, zrank_command, zcard_command, zscore_command,
  zrem_command,
}
use carrotdb.Commands.Print.{option_args, pair_args, counted, to_resp}
use carrotdb.Commands.Parse.Keys.{parse_echo, parse_get, parse_type, parse_incr, with_key}
use carrotdb.Commands.Parse.Lists.{parse_rpush, parse_lpush, parse_llen, parse_lpop, lpop_of}
use carrotdb.Commands.Parse.Sets.{parse_zrank, parse_zscore, parse_zcard, parse_zrem}
use carrotdb.Commands.Dispatch.{as_int, arguments, dispatch, dispatch_admin, dispatch_sets}
use carrotdb.Commands.Codec.{IsText, At, past}
use carrotdb.Commands.Codec.Options.{Fits}
use carrotdb.Commands.Codec.Handlers.{
  with_key-here, parse_set-here, keyed-here, parse_lpop-here, parse_xadd-here, key_and_member-here,
  parse_xrange-here,
}

-- A command without a double, the name that goes in front and the arguments behind it.
pub data Carries {D : Type 0} : Command D → Text → List Text → Type 0 where
  ping_text : Carries ping_command ping_word []
  echo_text : (message : Text) → Carries (echo_command message) echo_word (message ∷ [])
  set_text :
      (key value : Text) (ex px : Option ℕ)
      → Fits ex
      → Fits px
      → Carries
          (set_command key value ex px)
          set_word
          (key ∷ value ∷ (option_args ex_word ex ++ option_args px_word px))
  get_text : (key : Text) → Carries (get_command key) get_word (key ∷ [])
  type_text : (key : Text) → Carries (type_command key) type_word (key ∷ [])
  incr_text : (key : Text) → Carries (incr_command key) incr_word (key ∷ [])
  rpush_text :
      (key : Text) (values : List Text)
      → Carries (rpush_command key values) rpush_word (key ∷ values)
  lpush_text :
      (key : Text) (values : List Text)
      → Carries (lpush_command key values) lpush_word (key ∷ values)
  llen_text : (key : Text) → Carries (llen_command key) llen_word (key ∷ [])
  lpop_text : (key : Text) → Carries (lpop_command key none) lpop_word (key ∷ [])
  lpop_count_text :
      (key : Text) (count : ℕ)
      → count < 2 ^ 32
      → Carries (lpop_command key (some count)) lpop_word (key ∷ print_u64 count ∷ [])
  xadd_text :
      (key stream_id : Text) (fs : List (Text × Text))
      → Carries (xadd_command key stream_id fs) xadd_word (key ∷ stream_id ∷ pair_args fs)
  xrange_text :
      (key start end : Text)
      → Carries (xrange_command key start end) xrange_word (key ∷ start ∷ end ∷ [])
  multi_text : Carries multi_command multi_word []
  exec_text : Carries exec_command exec_word []
  discard_text : Carries discard_command discard_word []
  zrank_text :
      (key member : Text) → Carries (zrank_command key member) zrank_word (key ∷ member ∷ [])
  zcard_text : (key : Text) → Carries (zcard_command key) zcard_word (key ∷ [])
  zscore_text :
      (key member : Text) → Carries (zscore_command key member) zscore_word (key ∷ member ∷ [])
  zrem_text :
      (key : Text) (members : List Text)
      → Carries (zrem_command key members) zrem_word (key ∷ members)

length-pair_args : (fs : List (Text × Text)) → length (pair_args fs) ≡ length fs * 2
unfolding pair_args
length-pair_args [] = refl
length-pair_args ((field, value) ∷ fs) = omega (arith, length-pair_args fs)

-- The number of the arguments that the functions get.
arguments-small : (n : ℕ) → n < 2 ^ 31 → arguments (1 + n) ≡ n
unfolding arguments as_int
arguments-small n small = ground arith

module _ {D : Type 0} ⦃f : Doubles D⦄ where
  -- to_resp prints an array of the name and the arguments, with their number in front.
  pub to_resp-Carries :
      {cmd : Command D} {name : Text} {args : List Text}
      → Carries cmd name args
      → to_resp cmd ≡ counted (1 + length args) (name ∷ args)
  unfolding to_resp
  to_resp-Carries ping_text = refl
  to_resp-Carries (echo_text message) = refl
  to_resp-Carries (set_text key value ex px h0 h1) =
      ap
        (λ m.
          counted m (set_word ∷ key ∷ value ∷ (option_args ex_word ex ++ option_args px_word px)))
        (omega (arith, length-append (option_args ex_word ex) (option_args px_word px)))
  to_resp-Carries (get_text key) = refl
  to_resp-Carries (type_text key) = refl
  to_resp-Carries (incr_text key) = refl
  to_resp-Carries (rpush_text key values) =
      ap (λ m. counted m (rpush_word ∷ key ∷ values)) (omega arith)
  to_resp-Carries (lpush_text key values) =
      ap (λ m. counted m (lpush_word ∷ key ∷ values)) (omega arith)
  to_resp-Carries (llen_text key) = refl
  to_resp-Carries (lpop_text key) = refl
  to_resp-Carries (lpop_count_text key count h0) = refl
  to_resp-Carries (xadd_text key stream_id fs) =
      ap (λ m. counted m (xadd_word ∷ key ∷ stream_id ∷ pair_args fs))
        (omega (arith, length-pair_args fs))
  to_resp-Carries (xrange_text key start end) = refl
  to_resp-Carries multi_text = refl
  to_resp-Carries exec_text = refl
  to_resp-Carries discard_text = refl
  to_resp-Carries (zrank_text key member) = refl
  to_resp-Carries (zcard_text key) = refl
  to_resp-Carries (zscore_text key member) = refl
  to_resp-Carries (zrem_text key members) =
      ap (λ m. counted m (zrem_word ∷ key ∷ members)) (omega arith)

  -- parseCommand finds the function of the command, which makes the command again.
  pub dispatch-Carries :
      {cmd : Command D} {name : Text} {args : List Text} {raw : List ℕ} (rest : List ℕ) (n : ℕ)
      → Carries cmd name args
      → All IsText args
      → length args < 2 ^ 31
      → At raw n (frames args rest)
      → dispatch name raw (1 + length args) n ≡ some (cmd, past args n)
  unfolding dispatch dispatch_admin dispatch_sets is_equal equal_loop tolower past parse_get
      parse_type parse_incr parse_rpush parse_lpush parse_zrem parse_zrank parse_zscore parse_zcard
      parse_llen parse_echo parse_lpop lpop_of with_key
  dispatch-Carries {raw = raw} rest n ping_text t small a = refl
  dispatch-Carries {raw = raw} rest n (echo_text message) t small a =
      ap some (with_key-here echo_command message rest n a t.0)
  dispatch-Carries {raw = raw} rest n (set_text key value ex px h0 h1) t small a = ap some (
      parse_set-here key value ex px rest
        (arguments (1 + length (key ∷ value ∷ (option_args ex_word ex ++ option_args px_word px))))
        n
        (omega (
          arith,
          arguments-small
              (length (key ∷ value ∷ (option_args ex_word ex ++ option_args px_word px))) small,
        ))
        h0 h1 t.0 t.1.0 a)
  dispatch-Carries {raw = raw} rest n (get_text key) t small a =
      ap some (with_key-here get_command key rest n a t.0)
  dispatch-Carries {raw = raw} rest n (type_text key) t small a =
      ap some (with_key-here type_command key rest n a t.0)
  dispatch-Carries {raw = raw} rest n (incr_text key) t small a =
      ap some (with_key-here incr_command key rest n a t.0)
  dispatch-Carries {raw = raw} rest n (rpush_text key values) t small a = ap some (
      keyed-here rpush_command key values rest (arguments (1 + length (key ∷ values))) n
        (omega (arith, arguments-small (length (key ∷ values)) small)) t.0 t.1 a)
  dispatch-Carries {raw = raw} rest n (lpush_text key values) t small a = ap some (
      keyed-here lpush_command key values rest (arguments (1 + length (key ∷ values))) n
        (omega (arith, arguments-small (length (key ∷ values)) small)) t.0 t.1 a)
  dispatch-Carries {raw = raw} rest n (llen_text key) t small a =
      ap some (with_key-here llen_command key rest n a t.0)
  dispatch-Carries {raw = raw} rest n (lpop_text key) t small a =
      ap (λ m. some (parse_lpop raw m n)) (arguments-small 1 small)
      ∙ ap some (with_key-here (λ k. lpop_command k none) key rest n a t.0)
  dispatch-Carries {raw = raw} rest n (lpop_count_text key count h0) t small a =
      ap (λ m. some (parse_lpop raw m n)) (arguments-small 2 small)
      ∙ ap some (parse_lpop-here key count rest n h0 t.0 a)
  dispatch-Carries {raw = raw} rest n (xadd_text key stream_id fs) t small a = ap some (
      parse_xadd-here key stream_id fs rest
        (arguments (1 + length (key ∷ stream_id ∷ pair_args fs))) n
        (omega (arith, arguments-small (length (key ∷ stream_id ∷ pair_args fs)) small)) t.0 t.1.0
        t.1.1 a)
  dispatch-Carries {raw = raw} rest n (xrange_text key start end) t small a =
      ap some (parse_xrange-here key start end rest n t.0 t.1.0 t.1.1.0 a)
  dispatch-Carries {raw = raw} rest n multi_text t small a = refl
  dispatch-Carries {raw = raw} rest n exec_text t small a = refl
  dispatch-Carries {raw = raw} rest n discard_text t small a = refl
  dispatch-Carries {raw = raw} rest n (zrank_text key member) t small a =
      ap some (key_and_member-here zrank_command key member rest n t.0 t.1.0 a)
  dispatch-Carries {raw = raw} rest n (zcard_text key) t small a =
      ap some (with_key-here zcard_command key rest n a t.0)
  dispatch-Carries {raw = raw} rest n (zscore_text key member) t small a =
      ap some (key_and_member-here zscore_command key member rest n t.0 t.1.0 a)
  dispatch-Carries {raw = raw} rest n (zrem_text key members) t small a = ap some (
      keyed-here zrem_command key members rest (arguments (1 + length (key ∷ members))) n
        (omega (arith, arguments-small (length (key ∷ members)) small)) t.0 t.1 a)
