-- ===== src/Transactions/Types.antt =====
-- What the code asks of a command: its key (parser/command.h), and the tests of its type in the
-- handlers under db and in DB::execute.
use carrotdb.Base.{Bool, true, false, []}
use carrotdb.Commands.Names.{Text}
use carrotdb.Commands.Command.{
  Command, set_command, get_command, type_command, incr_command, rpush_command, lpush_command,
  lrange_command, llen_command, lpop_command, xadd_command, xrange_command, exec_command,
  discard_command, subscribe_command, keys_command, publish_command, acl_get_user_command,
  zadd_command, zrank_command, zrange_command, zcard_command, zscore_command, zrem_command,
  geo_add_command, geo_pos_command, geo_dist_command, geo_search_command, acl_whoami_command,
}

module _ {D : Type 0} where
  -- Command::key, which stays empty where the parser does not set it.
  unfoldable pub key_of : Command D → Text
  key_of (set_command key value ex px) = key
  key_of (get_command key) = key
  key_of (type_command key) = key
  key_of (incr_command key) = key
  key_of (rpush_command key values) = key
  key_of (lpush_command key values) = key
  key_of (lrange_command key start stop) = key
  key_of (llen_command key) = key
  key_of (lpop_command key count) = key
  key_of (xadd_command key stream_id field_values) = key
  key_of (xrange_command key start end) = key
  key_of (zadd_command key score_members) = key
  key_of (zrank_command key member) = key
  key_of (zrange_command key start stop) = key
  key_of (zcard_command key) = key
  key_of (zscore_command key member) = key
  key_of (zrem_command key members) = key
  key_of (geo_add_command key longitude latitude score member invalid) = key
  key_of (geo_pos_command key members) = key
  key_of (geo_dist_command key member1 member2) = key
  key_of (geo_search_command key longitude latitude radius) = key
  key_of _ = []

  -- The tests of the type of a command.
  unfoldable pub is_zadd : Command D → Bool
  is_zadd (zadd_command key score_members) = true
  is_zadd _ = false

  unfoldable pub is_zrank : Command D → Bool
  is_zrank (zrank_command key member) = true
  is_zrank _ = false

  unfoldable pub is_zrange : Command D → Bool
  is_zrange (zrange_command key start stop) = true
  is_zrange _ = false

  unfoldable pub is_zcard : Command D → Bool
  is_zcard (zcard_command key) = true
  is_zcard _ = false

  unfoldable pub is_zscore : Command D → Bool
  is_zscore (zscore_command key member) = true
  is_zscore _ = false

  unfoldable pub is_zrem : Command D → Bool
  is_zrem (zrem_command key members) = true
  is_zrem _ = false

  unfoldable pub is_geo_add : Command D → Bool
  is_geo_add (geo_add_command key longitude latitude score member invalid) = true
  is_geo_add _ = false

  unfoldable pub is_geo_pos : Command D → Bool
  is_geo_pos (geo_pos_command key members) = true
  is_geo_pos _ = false

  unfoldable pub is_geo_dist : Command D → Bool
  is_geo_dist (geo_dist_command key member1 member2) = true
  is_geo_dist _ = false

  unfoldable pub is_geo_search : Command D → Bool
  is_geo_search (geo_search_command key longitude latitude radius) = true
  is_geo_search _ = false

  unfoldable pub is_keys : Command D → Bool
  is_keys (keys_command pattern) = true
  is_keys _ = false

  unfoldable pub is_publish : Command D → Bool
  is_publish (publish_command channel_name message) = true
  is_publish _ = false

  unfoldable pub is_subscribe : Command D → Bool
  is_subscribe (subscribe_command channel_name) = true
  is_subscribe _ = false

  unfoldable pub is_acl_get_user : Command D → Bool
  is_acl_get_user (acl_get_user_command username) = true
  is_acl_get_user _ = false

  unfoldable pub is_exec : Command D → Bool
  is_exec exec_command = true
  is_exec _ = false

  unfoldable pub is_discard : Command D → Bool
  is_discard discard_command = true
  is_discard _ = false

  unfoldable pub is_whoami : Command D → Bool
  is_whoami acl_whoami_command = true
  is_whoami _ = false
