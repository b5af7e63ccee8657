-- ===== src/Commands/Parse/Lists.antt =====
-- The commands on lists and streams.
use carrotdb.Base.{
  ℕ, zero, suc, ◌-◌, ◌/◌, ◌%◌, ◌^◌, List, [], ◌∷◌, Option, none, some, ◌==◌, if◌then◌else◌,
}
use carrotdb.Base.Int.{ℤ, pos, negsuc, ◌+ℤ◌}
use carrotdb.Utils.{is_equal, convert_positive_string_to_number, convert_string_to_number}
use carrotdb.Commands.Names.{Text, block_word, streams_word}
use carrotdb.Commands.Doubles.{Doubles}
use carrotdb.Commands.Command.{
  Command, unknow_command, rpush_command, lpush_command, lrange_command, llen_command, lpop_command,
  blpop_command, xadd_command, xrange_command, xread_command,
}
use carrotdb.Commands.Read.{next_bulk, required, collect, add_some}

unfoldable pub count_of : Option ℕ → Option ℕ
count_of none = none
count_of (some n) = some (n % 2 ^ 32)

unfoldable pub bulk_count : Option Text → Option ℕ
bulk_count none = none
bulk_count (some t) = count_of (convert_positive_string_to_number t)

-- A pair of tokens counts where both are bulk strings.
unfoldable pub pair_of : Option Text → Option Text → Option (Text × Text)
pair_of none value = none
pair_of (some field) none = none
pair_of (some field) (some value) = some (field, value)

-- The loop over the field-value pairs; one argument alone is left.
unfoldable pub pairs : ℕ → List ℕ → ℕ → List (Text × Text) → List (Text × Text) × ℕ
pairs zero buffer at out = (out, at)
pairs (suc zero) buffer at out = (out, at)
pairs (suc (suc n)) buffer at out =
    let field = next_bulk buffer at in
    let value = next_bulk buffer field.1 in
    pairs n buffer value.1 (add_some out (pair_of field.0 value.0))

module _ {D : Type 0} where
  unfoldable pub made : (List Text → Command D) → List Text × ℕ → Command D × ℕ
  made make (texts, at) = (make texts, at)

  unfoldable pub parse_rpush : List ℕ → ℕ → ℕ → Command D × ℕ
  parse_rpush buffer total at =
      required (next_bulk buffer at)
        (λ key at1. made (rpush_command key) (collect (total - 1) buffer at1 []))

  unfoldable pub parse_lpush : List ℕ → ℕ → ℕ → Command D × ℕ
  parse_lpush buffer total at =
      required (next_bulk buffer at)
        (λ key at1. made (lpush_command key) (collect (total - 1) buffer at1 []))

  -- Two indices, both of which have to be numbers.
  unfoldable pub with_range : (ℤ → ℤ → Command D) → Option ℤ → Option ℤ → Command D
  with_range make none stop = unknow_command
  with_range make (some start) none = unknow_command
  with_range make (some start) (some stop) = make start stop

  unfoldable pub key_and_range : (Text → ℤ → ℤ → Command D) → List ℕ → ℕ → Command D × ℕ
  key_and_range make buffer at = required (next_bulk buffer at) (λ key at1.
      required (next_bulk buffer at1) (λ start at2. required (next_bulk buffer at2) (λ stop at3. (
        with_range (make key) (convert_string_to_number start) (convert_string_to_number stop),
        at3,
      ))))

  unfoldable pub parse_lrange : List ℕ → ℕ → Command D × ℕ
  parse_lrange = key_and_range lrange_command

  unfoldable pub parse_llen : List ℕ → ℕ → Command D × ℕ
  parse_llen buffer at = required (next_bulk buffer at) (λ key end. (llen_command key, end))

  unfoldable pub lpop_of : Text → ℕ → List ℕ → ℕ → Command D × ℕ
  lpop_of key zero buffer at = (lpop_command key none, at)
  lpop_of key (suc n) buffer at =
      (lpop_command key (bulk_count (next_bulk buffer at).0), (next_bulk buffer at).1)

  unfoldable pub parse_lpop : List ℕ → ℕ → ℕ → Command D × ℕ
  parse_lpop buffer total at =
      required (next_bulk buffer at) (λ key at1. lpop_of key (total - 1) buffer at1)

  unfoldable pub xadd_of : Text → Text → List (Text × Text) × ℕ → Command D × ℕ
  xadd_of key stream_id (field_values, at) = (xadd_command key stream_id field_values, at)

  unfoldable pub parse_xadd : List ℕ → ℕ → ℕ → Command D × ℕ
  parse_xadd buffer total at = required (next_bulk buffer at) (λ key at1.
      required (next_bulk buffer at1)
        (λ stream_id at2. xadd_of key stream_id (pairs (total - 2) buffer at2 [])))

  unfoldable pub parse_xrange : List ℕ → ℕ → Command D × ℕ
  parse_xrange buffer at = required (next_bulk buffer at) (λ key at1.
      required (next_bulk buffer at1) (λ start at2.
        required (next_bulk buffer at2) (λ end at3. (xrange_command key start end, at3))))

-- The number of streams where the arguments that are left are even in number. The source's `int` may
-- be negative, and then there is no stream.
unfoldable pub half : ℤ → Option ℕ
half (pos n) = if n % 2 == 0 then some (n / 2) else none
half (negsuc n) = if n % 2 == 0 then none else some 0

module _ {D : Type 0} ⦃f : Doubles D⦄ where
  abbrev zero_double : D
  zero_double = f.literal (b'0' ∷ [])

  unfoldable pub stod_or_zero : Option D → D
  stod_or_zero none = zero_double
  stod_or_zero (some d) = d

  unfoldable pub blpop_timeout : Option Text → D
  blpop_timeout none = zero_double
  blpop_timeout (some t) = stod_or_zero (f.stod t)

  unfoldable pub blpop_of : ℕ → List ℕ → List Text × ℕ → Command D × ℕ
  blpop_of zero buffer (keys, at) = (blpop_command keys zero_double, at)
  blpop_of (suc n) buffer (keys, at) =
      (blpop_command keys (blpop_timeout (next_bulk buffer at).0), (next_bulk buffer at).1)

  -- All arguments but the last are keys.
  unfoldable pub parse_blpop : List ℕ → ℕ → ℕ → Command D × ℕ
  parse_blpop buffer total at = blpop_of total buffer (collect (total - 1) buffer at [])

  unfoldable pub block_timeout : Option Text → Option D
  block_timeout none = none
  block_timeout (some t) = some (stod_or_zero (f.stod t))

  unfoldable pub xread_ids : Option D → List Text → List Text × ℕ → Command D × ℕ
  xread_ids timeout keys (ids, at) = (xread_command timeout keys ids, at)

  unfoldable pub xread_keys : Option D → ℕ → List ℕ → List Text × ℕ → Command D × ℕ
  xread_keys timeout n buffer (keys, at) = xread_ids timeout keys (collect n buffer at [])

  unfoldable pub xread_streams : Option D → Option ℕ → List ℕ → ℕ → Command D × ℕ
  xread_streams timeout none buffer at = (unknow_command, at)
  xread_streams timeout (some n) buffer at = xread_keys timeout n buffer (collect n buffer at [])

  -- BLOCK with its timeout, and the word STREAMS, which is not looked at; or STREAMS alone.
  unfoldable pub xread_first : Text → List ℕ → ℤ → ℕ → Command D × ℕ
  xread_first first buffer total at =
      if is_equal first block_word
      then (let timeout = next_bulk buffer at in
          xread_streams (block_timeout timeout.0) (half (total +ℤ negsuc 2)) buffer
            (next_bulk buffer timeout.1).1)
      else if is_equal first streams_word
      then xread_streams none (half (total +ℤ negsuc 0)) buffer at
      else (unknow_command, at)

  unfoldable pub parse_xread : List ℕ → ℤ → ℕ → Command D × ℕ
  parse_xread buffer total at =
      required (next_bulk buffer at) (λ first at1. xread_first first buffer total at1)
