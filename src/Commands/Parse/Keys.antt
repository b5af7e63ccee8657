-- ===== src/Commands/Parse/Keys.antt =====
-- The commands on strings and on any key.
use carrotdb.Base.{ℕ, zero, suc, ◌-◌, true, false, List, Option, none, some}
use carrotdb.Utils.{is_equal, convert_positive_string_to_number}
use carrotdb.Commands.Names.{Text, ex_word, px_word}
use carrotdb.Commands.Command.{
  Command, echo_command, set_command, get_command, type_command, incr_command, keys_command,
}
use carrotdb.Commands.Read.{next_bulk, required}

-- The value of an option replaces the old one where it is a number.
unfoldable pub number_or : Option ℕ → Option ℕ → Option ℕ
number_or old none = old
number_or old (some n) = some n

unfoldable pub bulk_number : Option ℕ → Option Text → Option ℕ
bulk_number old none = old
bulk_number old (some t) = number_or old (convert_positive_string_to_number t)

-- What an argument behind the value is, where another one follows it.
pub data SetFlag : Type 0 where
  stop_here ex_flag px_flag other_flag : SetFlag

unfoldable pub set_flag : Option Text → SetFlag
set_flag none = stop_here
set_flag (some flag) = elim (is_equal flag ex_word) [
  | true ↦ ex_flag
  | false ↦ elim (is_equal flag px_word) [ true ↦ px_flag | false ↦ other_flag ]
]

-- The loop over the optional flags, with EX and PX so far.
unfoldable pub set_flags : ℕ → List ℕ → ℕ → Option ℕ → Option ℕ → (Option ℕ × Option ℕ) × ℕ
set_flags zero buffer at ex px = ((ex, px), at)
set_flags (suc zero) buffer at ex px = ((ex, px), (next_bulk buffer at).1)
set_flags (suc (suc n)) buffer at ex px =
    let flag = next_bulk buffer at in
    let value = next_bulk buffer flag.1 in
    elim (set_flag flag.0) [
      | stop_here ↦ ((ex, px), flag.1)
      | ex_flag ↦ set_flags n buffer value.1 (bulk_number ex value.0) px
      | px_flag ↦ set_flags n buffer value.1 ex (bulk_number px value.0)
      | other_flag ↦ set_flags (suc n) buffer flag.1 ex px
    ]

module _ {D : Type 0} where
  unfoldable pub parse_echo : List ℕ → ℕ → Command D × ℕ
  parse_echo buffer at = required (next_bulk buffer at) (λ message end. (echo_command message, end))

  unfoldable pub set_of : Text → Text → (Option ℕ × Option ℕ) × ℕ → Command D × ℕ
  set_of key value ((ex, px), end) = (set_command key value ex px, end)

  unfoldable pub parse_set : List ℕ → ℕ → ℕ → Command D × ℕ
  parse_set buffer total at = required (next_bulk buffer at) (λ key at1.
      required (next_bulk buffer at1)
        (λ value at2. set_of key value (set_flags (total - 2) buffer at2 none none)))

  -- A command whose only argument is its key.
  unfoldable pub with_key : (Text → Command D) → List ℕ → ℕ → Command D × ℕ
  with_key make buffer at = required (next_bulk buffer at) (λ key end. (make key, end))

  unfoldable pub parse_get : List ℕ → ℕ → Command D × ℕ
  parse_get = with_key get_command

  unfoldable pub parse_type : List ℕ → ℕ → Command D × ℕ
  parse_type = with_key type_command

  unfoldable pub parse_incr : List ℕ → ℕ → Command D × ℕ
  parse_incr = with_key incr_command

  unfoldable pub parse_keys : List ℕ → ℕ → Command D × ℕ
  parse_keys = with_key keys_command
