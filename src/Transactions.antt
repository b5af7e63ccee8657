-- ===== src/Transactions.antt =====
-- Transactions: the flags of models/client.h, DB::call and DB::execute of db/db.cpp, the handlers of
-- MULTI, EXEC and DISCARD, and what the other handlers under db ask of the command in their context.
mod Types
unfoldable pub use Types.*
pub mod Watch
pub mod Queue
pub mod Laws
pub mod Ordered
pub mod Invariant
mod Examples
use carrotdb.Base.{
  ℕ, zero, suc, Bool, true, false, ◌&&◌, not, List, [], ◌∷◌, ◌++◌, Option, none, some, length,
  if◌then◌else◌, ◌==◌,
}
use carrotdb.Base.Bytes.{same}
use carrotdb.Resp.Encode.{crlf, encode_simple_string, encode_bulk_string, encode_array_header}
use carrotdb.Commands.Names.{Text}
use carrotdb.Commands.Command.{
  Command, ping_command, echo_command, set_command, get_command, type_command, incr_command,
  rpush_command, lpush_command, lrange_command, llen_command, lpop_command, xadd_command,
  xrange_command, multi_command, exec_command, discard_command, get_config_command,
  subscribe_command, keys_command, publish_command, acl_get_user_command, zadd_command,
  zrank_command, zrange_command, zcard_command, zscore_command, zrem_command, geo_add_command,
  geo_pos_command, geo_dist_command, geo_search_command, acl_whoami_command, unknow_command,
  info_command, repl_conf_command, psync_command, wait_command, un_subscribe_command,
  acl_set_user_command, auth_command,
}

abbrev pub queued_word : Text
queued_word = b'Q' ∷ b'U' ∷ b'E' ∷ b'U' ∷ b'E' ∷ b'D' ∷ []

unfoldable pub encode_error : List ℕ → Text → Text → List ℕ
encode_error buffer message error_type =
    buffer ++ (b'-' ∷ (error_type ++ (b' ' ∷ (message ++ crlf))))

abbrev pub err_word : Text
err_word = b'E' ∷ b'R' ∷ b'R' ∷ []

abbrev pub noauth_word : Text
noauth_word = b'N' ∷ b'O' ∷ b'A' ∷ b'U' ∷ b'T' ∷ b'H' ∷ []

-- What the code answers as an error.
pub data Message : Type 0 where
  exec_without_multi discard_without_multi invalid_command_type authentication_required : Message

unfoldable pub text_of : Message → Text
text_of exec_without_multi =
    b'E' ∷ b'X' ∷ b'E' ∷ b'C' ∷ b' ' ∷ b'w' ∷ b'i' ∷ b't' ∷ b'h' ∷ b'o' ∷ b'u' ∷ b't' ∷ b' ' ∷ b'M'
    ∷ b'U' ∷ b'L' ∷ b'T' ∷ b'I' ∷ []
text_of discard_without_multi =
    b'D' ∷ b'I' ∷ b'S' ∷ b'C' ∷ b'A' ∷ b'R' ∷ b'D' ∷ b' ' ∷ b'w' ∷ b'i' ∷ b't' ∷ b'h' ∷ b'o' ∷ b'u'
    ∷ b't' ∷ b' ' ∷ b'M' ∷ b'U' ∷ b'L' ∷ b'T' ∷ b'I' ∷ []
text_of invalid_command_type =
    b'I' ∷ b'n' ∷ b'v' ∷ b'a' ∷ b'l' ∷ b'i' ∷ b'd' ∷ b' ' ∷ b'c' ∷ b'o' ∷ b'm' ∷ b'm' ∷ b'a' ∷ b'n'
    ∷ b'd' ∷ b' ' ∷ b't' ∷ b'y' ∷ b'p' ∷ b'e' ∷ []
text_of authentication_required =
    b'A' ∷ b'u' ∷ b't' ∷ b'h' ∷ b'e' ∷ b'n' ∷ b't' ∷ b'i' ∷ b'c' ∷ b'a' ∷ b't' ∷ b'i' ∷ b'o' ∷ b'n'
    ∷ b' ' ∷ b'r' ∷ b'e' ∷ b'q' ∷ b'u' ∷ b'i' ∷ b'r' ∷ b'e' ∷ b'd' ∷ b'.' ∷ []

-- The three bits of the flags, the queue and what the client has to be sent.
pub record Client (D : Type 0) : Type 0 where
  pub write_buffer : List ℕ
  pub multi : Bool
  pub dirty : Bool
  pub pub_sub : Bool
  pub queued_commands : List (Command D)
  pub is_authenticated : Bool
  pub fd : ℕ

-- The client of the request, who watches a key, and the rest of the database.
pub record World (D : Type 0) (S : Type 0) : Type 0 where
  pub client : Client D
  pub watching_keys : List (Text × List ℕ)
  pub db : S

-- The handlers of the other commands: with the command of the context and the one that is called, what
-- they do to the database and what they answer. The handlers that have the configuration are given
-- whether the client is authenticated, and answer that too.
pub record Handlers (D : Type 0) (S : Type 0) : Type 0 where
  pub run : Command D → Command D → S → S × Text
  pub run_pub_sub : Command D → S → S × Text
  pub run_with_config : Command D → Bool → S → S × Bool × Text

unfoldable pub watch_key : Text → ℕ → List (Text × List ℕ) → List (Text × List ℕ)
watch_key key fd [] = (key, fd ∷ []) ∷ []
watch_key key fd ((k, fds) ∷ rest) =
    let others = watch_key key fd rest in
    if same k key then (k, fds ++ (fd ∷ [])) ∷ rest else (k, fds) ∷ others

module _ {D : Type 0} where
  unfoldable pub reset_flags : Client D → Client D
  reset_flags c = record c { multi = false; dirty = false; pub_sub = false }

  unfoldable pub reply : List ℕ → Client D → Client D
  reply bytes c = record c { write_buffer = c.write_buffer ++ bytes }

module _ {D : Type 0} {S : Type 0} (h : Handlers D S) where
  unfoldable pub answer_client : List ℕ → World D S → World D S
  answer_client bytes w = record w { client = reply bytes w.client }

  unfoldable pub fail : Message → Text → World D S → World D S
  fail message error_type w = answer_client (encode_error [] (text_of message) error_type) w

  unfoldable pub took : S × Text → World D S → World D S
  took (db, bytes) w = record w { client = reply bytes w.client; db = db }

  unfoldable pub took_config : S × Bool × Text → World D S → World D S
  took_config (db, logged_in, bytes) w = record w {
    client = reply bytes (record w.client { is_authenticated = logged_in });
    db = db;
  }

  unfoldable pub handle_ping : World D S → World D S
  handle_ping w =
      if w.client.pub_sub
      then answer_client (encode_bulk_string [] (b'p' ∷ b'o' ∷ b'n' ∷ b'g' ∷ [])) w
      else answer_client (encode_simple_string [] (b'P' ∷ b'O' ∷ b'N' ∷ b'G' ∷ [])) w

  unfoldable pub handle_echo : Text → World D S → World D S
  handle_echo message w = answer_client (encode_bulk_string [] message) w

  unfoldable pub handle_multi : World D S → World D S
  handle_multi w =
      answer_client (encode_simple_string [] (b'O' ∷ b'K' ∷ []))
        (record w { client = record w.client { multi = true } })

  unfoldable pub clear_queue : World D S → World D S
  clear_queue w = record w { client = reset_flags (record w.client { queued_commands = [] }) }

  unfoldable pub handle_discard : World D S → World D S
  handle_discard w =
      if not w.client.multi
      then fail discard_without_multi err_word w
      else answer_client (encode_simple_string [] (b'O' ∷ b'K' ∷ [])) (clear_queue w)

  -- The loop over the queue.
  unfoldable pub exec_loop :
      (Command D → World D S → Option (World D S))
      → List (Command D)
      → World D S
      → Option (World D S)
  exec_loop call_one [] w = some w
  exec_loop call_one (c ∷ cs) w = elim (call_one c w) [
    | none ↦ none
    | some w1 ↦ exec_loop call_one cs w1
  ]

  unfoldable pub end_exec : Option (World D S) → Option (World D S)
  end_exec none = none
  end_exec (some w) = some (clear_queue w)

  unfoldable pub handle_exec :
      (Command D → World D S → Option (World D S)) → World D S → Option (World D S)
  handle_exec call_one w =
      if not w.client.multi
      then some (fail exec_without_multi err_word w)
      else end_exec (
          exec_loop call_one w.client.queued_commands
            (answer_client (encode_array_header [] (length w.client.queued_commands)) w))

  -- The handlers of the sorted sets and of the places look at the context's command alone, and refuse
  -- one of another type.
  unfoldable pub checked : Bool → Command D → World D S → World D S
  checked has_type context w =
      if has_type then took (h.run context context w.db) w else fail invalid_command_type err_word w

  -- handleKeys does nothing with a command of another type.
  unfoldable pub handle_keys : Command D → World D S → World D S
  handle_keys context w = if is_keys context then took (h.run context context w.db) w else w

  -- A handler that casts the context's command with no test: for one of another type the behaviour is
  -- undefined.
  unfoldable pub unchecked : Bool → Command D → World D S → Option (World D S)
  unchecked has_type context w =
      if has_type then some (took (h.run context context w.db) w) else none

  unfoldable pub call_other : Command D → Command D → World D S → Option (World D S)
  call_other context (zadd_command key score_members) w = some (checked (is_zadd context) context w)
  call_other context (zrank_command key member) w = some (checked (is_zrank context) context w)
  call_other context (zrange_command key start stop) w =
      some (checked (is_zrange context) context w)
  call_other context (zcard_command key) w = some (checked (is_zcard context) context w)
  call_other context (zscore_command key member) w = some (checked (is_zscore context) context w)
  call_other context (zrem_command key members) w = some (checked (is_zrem context) context w)
  call_other context (geo_add_command key longitude latitude score member invalid) w =
      some (checked (is_geo_add context) context w)
  call_other context (geo_pos_command key members) w = some (checked (is_geo_pos context) context w)
  call_other context (geo_dist_command key member1 member2) w =
      some (checked (is_geo_dist context) context w)
  call_other context (geo_search_command key longitude latitude radius) w =
      some (checked (is_geo_search context) context w)
  call_other context (keys_command pattern) w = some (handle_keys context w)
  call_other context (publish_command channel_name message) w =
      unchecked (is_publish context) context w
  call_other context (acl_get_user_command username) w =
      unchecked (is_acl_get_user context) context w
  call_other context unknow_command w = some (handle_ping w)
  call_other context (info_command is_replication) w = some (handle_ping w)
  call_other context (repl_conf_command subcommand port capability offset) w = some (handle_ping w)
  call_other context (psync_command repl_id offset) w = some (handle_ping w)
  call_other context (wait_command num_replica timeout) w = some (handle_ping w)
  call_other context (get_config_command parameters) w = some (handle_ping w)
  call_other context (un_subscribe_command channel_name) w = some (handle_ping w)
  call_other context (acl_set_user_command username password flags) w = some (handle_ping w)
  call_other context (auth_command username password) w = some (handle_ping w)
  call_other context command w = some (took (h.run context command w.db) w)

  -- The command of the context, and the one to run. Fuel is for EXEC, which calls again; `none` is a
  -- call whose behaviour is undefined, or that is out of fuel.
  unfoldable pub call : ℕ → Command D → Command D → World D S → Option (World D S)
  call zero context command w = none
  call (suc fuel) context exec_command w = handle_exec (call fuel context) w
  call (suc fuel) context multi_command w = some (handle_multi w)
  call (suc fuel) context discard_command w = some (handle_discard w)
  call (suc fuel) context ping_command w = some (handle_ping w)
  call (suc fuel) context (echo_command message) w = some (handle_echo message w)
  call (suc fuel) context (subscribe_command channel) w =
      elim (unchecked (is_subscribe context) context w) [
        | none ↦ none
        | some w1 ↦ some (record w1 { client = record w1.client { pub_sub = true } })
      ]
  call (suc fuel) context command w = call_other context command w

  unfoldable pub queue_command : Command D → World D S → World D S
  queue_command command w = answer_client (encode_simple_string [] queued_word) (record w {
    client = record w.client { queued_commands = w.client.queued_commands ++ (command ∷ []) };
    watching_keys = watch_key (key_of command) w.client.fd w.watching_keys;
  })

  unfoldable pub configure : Command D → World D S → Option (World D S)
  configure command w =
      some (took_config (h.run_with_config command w.client.is_authenticated w.db) w)

  -- What is left for a client that is not in a transaction.
  unfoldable pub execute_now : ℕ → Command D → World D S → Option (World D S)
  execute_now fuel command w =
      if w.client.pub_sub then some (took (h.run_pub_sub command w.db) w) else elim command [
        | get_config_command parameters ↦ configure (get_config_command parameters) w
        | acl_set_user_command username password flags ↦
            configure (acl_set_user_command username password flags) w
        | auth_command username password ↦ configure (auth_command username password) w
        | other ↦ call fuel other other w
      ]

  unfoldable pub execute : ℕ → Option (Command D) → World D S → Option (World D S)
  execute fuel none w = some w
  execute fuel (some command) w =
      let now = execute_now fuel command w in
      if is_whoami command && not w.client.is_authenticated
      then some (fail authentication_required noauth_word w)
      else if w.client.multi && not (is_exec command) && not (is_discard command)
      then some (queue_command command w)
      else now
