-- ===== src/Commands/Print.antt =====
-- parser/command.h: to_resp. Each `cmd += "$" + length + "\r\n" + text + "\r\n"` is `bulk`, also for
-- a word that the source writes out with its length.
use carrotdb.Base.{ℕ, ◌+◌, ◌*◌, true, false, List, [], ◌∷◌, ◌++◌, Option, none, some, length}
use carrotdb.Base.Int.{ℤ}
use carrotdb.Base.Decimal.{print_u64, print_i64}
use carrotdb.Resp.Encode.{encode_array_header, encode_items}
use carrotdb.Commands.Names.{
  Text, ping_word, echo_word, set_word, get_word, type_word, incr_word, rpush_word, lpush_word,
  lrange_word, llen_word, lpop_word, blpop_word, xadd_word, xrange_word, xread_word, multi_word,
  exec_word, discard_word, info_word, replconf_word, psync_word, wait_word, zadd_word, zrank_word,
  zrange_word, zcard_word, zscore_word, zrem_word, geoadd_word, geopos_word, geodist_word, acl_word,
  auth_word, ex_word, px_word, block_word, streams_word, replication_word, listening_port_word,
  capa_word, getack_word, ack_word, whoami_word, getuser_word, setuser_word, star_word,
}
use carrotdb.Commands.Doubles.{Doubles}
use carrotdb.Commands.Command.{
  ReplConfType, Command, getack, ack, unknow_command, ping_command, echo_command, set_command,
  get_command, type_command, incr_command, rpush_command, lpush_command, lrange_command,
  llen_command, lpop_command, blpop_command, xadd_command, xrange_command, xread_command,
  multi_command, exec_command, discard_command, info_command, repl_conf_command, psync_command,
  wait_command, get_config_command, keys_command, subscribe_command, un_subscribe_command,
  publish_command, zadd_command, zrank_command, zrange_command, zcard_command, zscore_command,
  zrem_command, geo_add_command, geo_pos_command, geo_dist_command, geo_search_command,
  acl_whoami_command, acl_get_user_command, acl_set_user_command, auth_command,
}

-- A number's option, with its word in front.
unfoldable pub option_args : Text → Option ℕ → List Text
option_args word none = []
option_args word (some n) = word ∷ print_u64 n ∷ []

unfoldable pub pair_args : List (Text × Text) → List Text
pair_args [] = []
pair_args ((field, value) ∷ rest) = field ∷ value ∷ pair_args rest

-- The header with a count, and then the words and arguments.
unfoldable pub counted : ℕ → List Text → Text
counted count args = encode_items (encode_array_header [] count) args

-- The last two of the four cases of ReplConfCommand.
unfoldable pub conf_args : Text → Text → List Text
conf_args [] [] = []
conf_args [] (c ∷ cs) = capa_word ∷ (c ∷ cs) ∷ []
conf_args (p ∷ ps) capability = listening_port_word ∷ (p ∷ ps) ∷ []

unfoldable pub repl_conf_resp : ReplConfType → Text → Text → ℤ → Text
repl_conf_resp ack port capability offset =
    counted 3 (replconf_word ∷ ack_word ∷ print_i64 offset ∷ [])
repl_conf_resp getack port capability offset =
    counted 3 (replconf_word ∷ getack_word ∷ star_word ∷ [])
repl_conf_resp _ port capability offset = counted 3 (replconf_word ∷ conf_args port capability)

module _ {D : Type 0} ⦃f : Doubles D⦄ where
  unfoldable pub score_args : List (D × Text) → List Text
  score_args [] = []
  score_args ((score, member) ∷ rest) = f.to_text score ∷ member ∷ score_args rest

  unfoldable pub timeout_args : Option D → List Text
  timeout_args none = []
  timeout_args (some t) = block_word ∷ print_i64 (f.to_int64 t) ∷ []

  unfoldable pub to_resp : Command D → Text
  to_resp unknow_command = []
  to_resp ping_command = counted 1 (ping_word ∷ [])
  to_resp (echo_command message) = counted 2 (echo_word ∷ message ∷ [])
  to_resp (set_command key value ex px) =
      counted (3 + length (option_args ex_word ex) + length (option_args px_word px))
        (set_word ∷ key ∷ value ∷ (option_args ex_word ex ++ option_args px_word px))
  to_resp (get_command key) = counted 2 (get_word ∷ key ∷ [])
  to_resp (type_command key) = counted 2 (type_word ∷ key ∷ [])
  to_resp (incr_command key) = counted 2 (incr_word ∷ key ∷ [])
  to_resp (rpush_command key values) = counted (2 + length values) (rpush_word ∷ key ∷ values)
  to_resp (lpush_command key values) = counted (2 + length values) (lpush_word ∷ key ∷ values)
  to_resp (lrange_command key start stop) =
      counted 4 (lrange_word ∷ key ∷ print_i64 start ∷ print_i64 stop ∷ [])
  to_resp (llen_command key) = counted 2 (llen_word ∷ key ∷ [])
  to_resp (lpop_command key none) = counted 2 (lpop_word ∷ key ∷ [])
  to_resp (lpop_command key (some count)) = counted 3 (lpop_word ∷ key ∷ print_u64 count ∷ [])
  to_resp (blpop_command keys timeout) =
      counted (1 + length keys + 1) (blpop_word ∷ (keys ++ (print_i64 (f.to_int64 timeout) ∷ [])))
  to_resp (xadd_command key stream_id field_values) =
      counted (3 + length field_values * 2) (xadd_word ∷ key ∷ stream_id ∷ pair_args field_values)
  to_resp (xrange_command key start end) = counted 4 (xrange_word ∷ key ∷ start ∷ end ∷ [])
  to_resp (xread_command block_timeout keys ids) =
      counted (2 + length keys + length ids + length (timeout_args block_timeout))
        (xread_word ∷ (timeout_args block_timeout ++ (streams_word ∷ (keys ++ ids))))
  to_resp multi_command = counted 1 (multi_word ∷ [])
  to_resp exec_command = counted 1 (exec_word ∷ [])
  to_resp discard_command = counted 1 (discard_word ∷ [])
  to_resp (info_command true) = counted 2 (info_word ∷ replication_word ∷ [])
  to_resp (info_command false) = counted 1 (info_word ∷ [])
  to_resp (repl_conf_command subcommand port capability offset) =
      repl_conf_resp subcommand port capability offset
  to_resp (psync_command repl_id offset) = counted 3 (psync_word ∷ repl_id ∷ print_i64 offset ∷ [])
  to_resp (wait_command num_replica timeout) =
      counted 3 (wait_word ∷ print_u64 num_replica ∷ print_u64 timeout ∷ [])
  to_resp (get_config_command parameters) = []
  to_resp (keys_command pattern_text) = []
  to_resp (subscribe_command channel_name) = []
  to_resp (publish_command channel_name message) = []
  to_resp (un_subscribe_command channel_name) = []
  to_resp (zadd_command key score_members) =
      counted (2 + length score_members * 2) (zadd_word ∷ key ∷ score_args score_members)
  to_resp (zrank_command key member) = counted 3 (zrank_word ∷ key ∷ member ∷ [])
  to_resp (zrange_command key start stop) =
      counted 4 (zrange_word ∷ key ∷ print_i64 start ∷ print_i64 stop ∷ [])
  to_resp (zcard_command key) = counted 2 (zcard_word ∷ key ∷ [])
  to_resp (zscore_command key member) = counted 3 (zscore_word ∷ key ∷ member ∷ [])
  to_resp (zrem_command key members) = counted (2 + length members) (zrem_word ∷ key ∷ members)
  to_resp (geo_add_command key longitude latitude score member invalid) =
      counted 5 (geoadd_word ∷ key ∷ f.to_text longitude ∷ f.to_text latitude ∷ member ∷ [])
  to_resp (geo_pos_command key members) = counted 2 (geopos_word ∷ key ∷ members)
  to_resp (geo_dist_command key member1 member2) =
      counted 4 (geodist_word ∷ key ∷ member1 ∷ member2 ∷ [])
  to_resp (geo_search_command key longitude latitude radius) = []
  to_resp acl_whoami_command = counted 2 (acl_word ∷ whoami_word ∷ [])
  to_resp (acl_get_user_command username) = counted 2 (acl_word ∷ getuser_word ∷ [])
  to_resp (acl_set_user_command username password flags) = counted 2 (acl_word ∷ setuser_word ∷ [])
  to_resp (auth_command username password) = counted 3 (auth_word ∷ [])
