-- ===== src/Commands/Command.antt =====
-- parser/command.h: the commands with their fields, and which of them write.
use carrotdb.Base.{ℕ, Bool, true, false, List, Option}
use carrotdb.Base.Int.{ℤ}
use carrotdb.Commands.Names.{Text}

pub data ReplConfType : Type 0 where
  listening_port capa getack ack : ReplConfType

-- One constructor for each struct that derives from Command; a key comes first.
pub data Command (D : Type 0) : Type 0 where
  unknow_command : Command D
  ping_command : Command D
  echo_command : Text → Command D
  set_command : Text → Text → Option ℕ → Option ℕ → Command D
  get_command : Text → Command D
  type_command : Text → Command D
  incr_command : Text → Command D
  rpush_command : Text → List Text → Command D
  lpush_command : Text → List Text → Command D
  lrange_command : Text → ℤ → ℤ → Command D
  llen_command : Text → Command D
  lpop_command : Text → Option ℕ → Command D
  blpop_command : List Text → D → Command D
  xadd_command : Text → Text → List (Text × Text) → Command D
  xrange_command : Text → Text → Text → Command D
  xread_command : Option D → List Text → List Text → Command D
  multi_command : Command D
  exec_command : Command D
  discard_command : Command D
  info_command : Bool → Command D
  repl_conf_command : ReplConfType → Text → Text → ℤ → Command D
  psync_command : Text → ℤ → Command D
  wait_command : ℕ → ℕ → Command D
  get_config_command : List Text → Command D
  keys_command : Text → Command D
  subscribe_command : Text → Command D
  publish_command : Text → Text → Command D
  un_subscribe_command : Text → Command D
  zadd_command : Text → List (D × Text) → Command D
  zrank_command : Text → Text → Command D
  zrange_command : Text → ℤ → ℤ → Command D
  zcard_command : Text → Command D
  zscore_command : Text → Text → Command D
  zrem_command : Text → List Text → Command D
  geo_add_command : Text → D → D → D → Text → Bool → Command D
  geo_pos_command : Text → List Text → Command D
  geo_dist_command : Text → Text → Text → Command D
  geo_search_command : Text → D → D → D → Command D
  acl_whoami_command : Command D
  acl_get_user_command : Text → Command D
  acl_set_user_command : Text → Option Text → List Text → Command D
  auth_command : Text → Text → Command D

module _ {D : Type 0} where
  -- The commands that a master sends on to its replicas.
  unfoldable pub is_write_command : Command D → Bool
  is_write_command (set_command key value ex px) = true
  is_write_command (incr_command key) = true
  is_write_command (rpush_command key values) = true
  is_write_command (lpush_command key values) = true
  is_write_command (lpop_command key count) = true
  is_write_command (xadd_command key stream_id field_values) = true
  is_write_command (zadd_command key score_members) = true
  is_write_command (zrem_command key members) = true
  is_write_command (geo_add_command key longitude latitude score member invalid) = true
  is_write_command (acl_set_user_command username password flags) = true
  is_write_command _ = false
