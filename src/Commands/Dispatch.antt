-- ===== src/Commands/Dispatch.antt =====
-- parser/command-parser.cpp: parseCommand.
use carrotdb.Base.{
  ℕ, zero, suc, ◌+◌, ◌-◌, ◌%◌, ◌^◌, List, [], Option, none, some, ltb, drop, if◌then◌else◌,
}
use carrotdb.Base.Int.{ℤ, pos, negsuc, pos_part}
use carrotdb.Utils.{is_equal}
use carrotdb.Resp.Parser.{bulk_string, array, unknown, parse}
use carrotdb.Commands.Names.{
  Text, ping_word, echo_word, set_word, get_word, type_word, incr_word, rpush_word, lpush_word,
  lrange_word, llen_word, lpop_word, blpop_word, xadd_word, xrange_word, xread_word, multi_word,
  exec_word, discard_word, info_word, replconf_word, psync_word, wait_word, config_word, keys_word,
  subscribe_word, publish_word, unsubscribe_word, zadd_word, zrank_word, zrange_word, zcard_word,
  zscore_word, zrem_word, geoadd_word, geopos_word, geodist_word, geosearch_word, acl_word,
  auth_word,
}
use carrotdb.Commands.Doubles.{Doubles}
use carrotdb.Commands.Command.{
  Command, unknow_command, ping_command, multi_command, exec_command, discard_command,
}
use carrotdb.Commands.Read.{next_text}
use carrotdb.Commands.Parse.Keys.{
  parse_echo, parse_set, parse_get, parse_type, parse_incr, parse_keys,
}
use carrotdb.Commands.Parse.Lists.{
  parse_rpush, parse_lpush, parse_lrange, parse_llen, parse_lpop, parse_xadd, parse_xrange,
  parse_blpop, parse_xread,
}
use carrotdb.Commands.Parse.Sets.{
  parse_zrank, parse_zscore, parse_publish, parse_auth, parse_zrange, parse_zcard, parse_subscribe,
  parse_unsubscribe, parse_zrem, parse_zadd,
}
use carrotdb.Commands.Parse.Geo.{parse_geo_pos, parse_geo_dist, parse_geo_add, parse_geo_search}
use carrotdb.Commands.Parse.Admin.{
  parse_info, parse_repl_conf, parse_psync, parse_wait, parse_get_config, parse_acl,
}

-- `total_commands - 1` as the `int` that the functions get.
unfoldable pub as_int : ℕ → ℤ
as_int total =
    let low = (total + 2 ^ 64 - 1) % 2 ^ 32 in
    if ltb low (2 ^ 31) then pos low else negsuc (2 ^ 32 - 1 - low)

-- The same as a number of arguments: none where it is negative.
unfoldable pub arguments : ℕ → ℕ
arguments total = pos_part (as_int total)

module _ {D : Type 0} ⦃f : Doubles D⦄ where
  -- The names in the order of the source, in three parts; none for a name that is not known.
  unfoldable pub dispatch_sets : Text → List ℕ → ℕ → ℕ → Option (Command D × ℕ)
  dispatch_sets cmd_name buffer total at =
      if is_equal cmd_name zadd_word
      then some (parse_zadd buffer (arguments total) at)
      else if is_equal cmd_name zrank_word
      then some (parse_zrank buffer at)
      else if is_equal cmd_name zrange_word
      then some (parse_zrange buffer at)
      else if is_equal cmd_name zcard_word
      then some (parse_zcard buffer at)
      else if is_equal cmd_name zscore_word
      then some (parse_zscore buffer at)
      else if is_equal cmd_name zrem_word
      then some (parse_zrem buffer (arguments total) at)
      else if is_equal cmd_name geoadd_word
      then some (parse_geo_add buffer (arguments total) at)
      else if is_equal cmd_name geopos_word
      then some (parse_geo_pos buffer (arguments total) at)
      else if is_equal cmd_name geodist_word
      then some (parse_geo_dist buffer at)
      else if is_equal cmd_name geosearch_word
      then some (parse_geo_search buffer at)
      else if is_equal cmd_name acl_word
      then some (parse_acl buffer (arguments total) at)
      else if is_equal cmd_name auth_word
      then some (parse_auth buffer at)
      else none

  unfoldable pub dispatch_admin : Text → List ℕ → ℕ → ℕ → Option (Command D × ℕ)
  dispatch_admin cmd_name buffer total at =
      if is_equal cmd_name info_word
      then some (parse_info buffer at)
      else if is_equal cmd_name replconf_word
      then some (parse_repl_conf buffer at)
      else if is_equal cmd_name psync_word
      then some (parse_psync buffer (arguments total) at)
      else if is_equal cmd_name wait_word
      then some (parse_wait buffer at)
      else if is_equal cmd_name config_word
      then some (parse_get_config buffer (arguments total) at)
      else if is_equal cmd_name keys_word
      then some (parse_keys buffer at)
      else if is_equal cmd_name subscribe_word
      then some (parse_subscribe buffer at)
      else if is_equal cmd_name publish_word
      then some (parse_publish buffer at)
      else if is_equal cmd_name unsubscribe_word
      then some (parse_unsubscribe buffer at)
      else dispatch_sets cmd_name buffer total at

  unfoldable pub dispatch : Text → List ℕ → ℕ → ℕ → Option (Command D × ℕ)
  dispatch cmd_name buffer total at =
      if is_equal cmd_name ping_word
      then some (ping_command, at)
      else if is_equal cmd_name echo_word
      then some (parse_echo buffer at)
      else if is_equal cmd_name set_word
      then some (parse_set buffer (arguments total) at)
      else if is_equal cmd_name get_word
      then some (parse_get buffer at)
      else if is_equal cmd_name type_word
      then some (parse_type buffer at)
      else if is_equal cmd_name incr_word
      then some (parse_incr buffer at)
      else if is_equal cmd_name rpush_word
      then some (parse_rpush buffer (arguments total) at)
      else if is_equal cmd_name lpush_word
      then some (parse_lpush buffer (arguments total) at)
      else if is_equal cmd_name lrange_word
      then some (parse_lrange buffer at)
      else if is_equal cmd_name llen_word
      then some (parse_llen buffer at)
      else if is_equal cmd_name lpop_word
      then some (parse_lpop buffer (arguments total) at)
      else if is_equal cmd_name blpop_word
      then some (parse_blpop buffer (arguments total) at)
      else if is_equal cmd_name xadd_word
      then some (parse_xadd buffer (arguments total) at)
      else if is_equal cmd_name xrange_word
      then some (parse_xrange buffer at)
      else if is_equal cmd_name xread_word
      then some (parse_xread buffer (as_int total) at)
      else if is_equal cmd_name multi_word
      then some (multi_command, at)
      else if is_equal cmd_name exec_word
      then some (exec_command, at)
      else if is_equal cmd_name discard_word
      then some (discard_command, at)
      else dispatch_admin cmd_name buffer total at

-- The command, the read buffer and position behind it, and the bytes that were counted.
pub record Parsed (D : Type 0) : Type 0 where
  pub command : Command D
  pub read_buffer : List ℕ
  pub position : ℕ
  pub bytes : ℕ

module _ {D : Type 0} ⦃f : Doubles D⦄ where
  -- A known command is cut out of the buffer; an unknown one empties it.
  unfoldable pub finish_command : List ℕ → ℕ → ℕ → Option (Command D × ℕ) → Parsed D
  finish_command buffer start at none = record {
    command = unknow_command;
    read_buffer = [];
    position = 0;
    bytes = at - start;
  }
  finish_command buffer start at (some (command, end)) = record {
    command = command;
    read_buffer = drop (end - start) buffer;
    position = 0;
    bytes = end - start;
  }

  -- The name and what it calls.
  unfoldable pub parse_named : List ℕ → ℕ → ℕ → Text × ℕ → Parsed D
  parse_named buffer start total (cmd_name, at) =
      finish_command buffer start at (dispatch cmd_name buffer total at)

  -- A bulk string in front is skipped with all before it. Each such round shortens the buffer, so that
  -- its length is enough fuel.
  unfoldable pub parse_command : ℕ → List ℕ → ℕ → Option (Parsed D)
  parse_command zero buffer start = none
  parse_command (suc fuel) buffer start =
      let first = parse buffer start in
      elim first.0.kind [
        | unknown ↦ some (record {
          command = unknow_command;
          read_buffer = buffer;
          position = first.1;
          bytes = 0;
        })
        | bulk_string ↦ parse_command fuel (drop (first.0.end_pos + 1) buffer) 0
        | array ↦ some (parse_named buffer start first.0.token_length (next_text buffer first.1))
      ]
