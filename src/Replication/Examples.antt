-- ===== src/Replication/Examples.antt =====
-- The theorems on commands and replication, on concrete commands and buffers.
use carrotdb.Base.{
  ℕ, ◌+◌, ◌-◌, ◌*◌, ◌%◌, ◌^◌, ◌≡◌, refl, true, false, List, [], ◌∷◌, ◌++◌, none, some, length, All,
  arith, ltb,
}
use carrotdb.Base.Int.{pos, negsuc}
use carrotdb.Base.Decimal.{print_u64, print_digits}
use carrotdb.Resp.Encode.{
  encode_simple_string, encode_bulk_string, encode_array_header, encode_items,
}
use carrotdb.Commands.Names.{Text, set_word, incr_word}
use carrotdb.Commands.Doubles.{Doubles}
use carrotdb.Commands.Command.{Command, set_command, incr_command, is_write_command}
use carrotdb.Commands.Print.{to_resp, counted, option_args}
use carrotdb.Commands.Dispatch.{Parsed, parse_command}
use carrotdb.Commands.Termination.{parse_command-enough}
use carrotdb.Commands.Codec.{IsText}
use carrotdb.Commands.Codec.Words.{set_text, incr_text}
use carrotdb.Commands.Codec.RoundTrip.{parse_command-to_resp}
use carrotdb.Replication.Slave.{
  SlaveReplicationClient, psync_sent, handshake_success, handle_handshake_read, process_commands,
}
use carrotdb.Replication.Replay.{is_multi, Sendable, printed, execute_all, process_commands-printed}
use carrotdb.Replication.Master.{
  BlockedWaitClient, ReplicationManager, handle_wait, psync_reply, send_all,
}
use carrotdb.Replication.Propagation.{propagate_all, writes, write_bytes, propagate_all-send_all}
use carrotdb.Replication.Agreement.{first_buffer, IsPrinted, propagate_all-process_commands}
use carrotdb.Replication.Acknowledged.{IsWaiting}
use carrotdb.Replication.Info.{get_next_wait_timeout_ms}
use carrotdb.Replication.Timeout.{IsLeast, get_next_wait_timeout_ms-IsLeast}
use carrotdb.Replication.Waiting.{started, stepped, waited, IsReachable-IsWaiting}
use carrotdb.Replication.Handshake.{handle_handshake_read-psync_reply, handle_handshake_read-part}

-- Numbers in the place of doubles.
instance whole_numbers : Doubles ℕ
whole_numbers = record {
  literal = λ t. 0;
  stod = λ t. none;
  to_text = print_u64;
  to_int64 = λ n. pos n;
  to_uint32 = λ n. n % 2 ^ 32;
  of_uint64 = λ n. n;
  is_less = ltb;
  minus = λ a b. a - b;
  over = λ a b. a;
  times = λ a b. a * b;
}

abbrev key_text : Text
key_text = b'k' ∷ []

abbrev value_text : Text
value_text = b'v' ∷ b'1' ∷ []

abbrev set_example : Command ℕ
set_example = set_command key_text value_text (some 60) none

abbrev incr_example : Command ℕ
incr_example = incr_command key_text

key_text-IsText : IsText key_text
key_text-IsText = ((refl, tt), omega arith)

value_text-IsText : IsText value_text
value_text-IsText = ((refl, (refl, tt)), omega arith)

abbrev set_args : List Text
set_args = key_text ∷ value_text ∷ (b'E' ∷ b'X' ∷ []) ∷ (b'6' ∷ b'0' ∷ []) ∷ []

set_args_are_texts : All IsText (set_word ∷ set_args)
set_args_are_texts = (
  ((refl, (refl, (refl, tt))), omega arith),
  (
    key_text-IsText,
    (
      value_text-IsText,
      (((refl, (refl, tt)), omega arith), (((refl, (refl, tt)), omega arith), tt)),
    ),
  ),
)

set_example-Sendable : Sendable set_example
unfolding option_args print_u64
set_example-Sendable = (
  set_word,
  set_args,
  set_text key_text value_text (some 60) none (omega arith) tt,
  set_args_are_texts,
  omega arith,
)

incr_texts : All IsText (incr_word ∷ key_text ∷ [])
incr_texts = (((refl, (refl, (refl, (refl, tt)))), omega arith), (key_text-IsText, tt))

incr_example-Sendable : Sendable incr_example
incr_example-Sendable = (incr_word, key_text ∷ [], incr_text key_text, incr_texts, omega arith)

parse_command-to_resp_example :
    parse_command 1 (to_resp incr_example ++ (b'x' ∷ [])) 0
    ≡ some (record {
      command = incr_example;
      read_buffer = b'x' ∷ [];
      position = 0;
      bytes = length (to_resp incr_example);
    })
parse_command-to_resp_example =
    parse_command-to_resp 0 (b'x' ∷ []) (incr_text key_text) incr_texts (omega arith)

parse_command-enough_example :
    (p : Parsed ℕ) × (parse_command 7 (b'$' ∷ b'1' ∷ b'\r' ∷ b'\n' ∷ b'x' ∷ []) 0 ≡ some p)
parse_command-enough_example =
    parse_command-enough 7 (b'$' ∷ b'1' ∷ b'\r' ∷ b'\n' ∷ b'x' ∷ []) 0 (omega arith)

-- The database is the list of the commands that were executed.
abbrev run_log : Command ℕ → List (Command ℕ) → List (Command ℕ)
run_log cmd log = log ++ (cmd ∷ [])

abbrev two_commands : List (Command ℕ)
two_commands = set_example ∷ incr_example ∷ []

abbrev replica_with : List ℕ → ℕ → SlaveReplicationClient (List (Command ℕ))
replica_with buffer bytes = record {
  replication_status = handshake_success;
  port = 6380;
  is_handshake_completed = true;
  repl_id = b'?' ∷ [];
  offset = negsuc 0;
  bytes_processed = bytes;
  read_buffer = buffer;
  write_buffer = [];
  db = [];
}

process_commands-printed_example :
    (t : SlaveReplicationClient (List (Command ℕ))) × (process_commands run_log 3
        (replica_with (printed two_commands) 0)
      ≡ some t)
    × (t.db ≡ execute_all run_log two_commands [])
    × (t.read_buffer ≡ [])
    × (t.bytes_processed ≡ 0 + length (printed two_commands))
unfolding printed to_resp counted encode_items encode_bulk_string encode_array_header print_u64
    print_digits option_args is_multi
process_commands-printed_example =
    process_commands-printed run_log two_commands 3 (replica_with (printed two_commands) 0)
      (set_example-Sendable, (incr_example-Sendable, tt)) (refl, (refl, tt)) refl (omega arith)
      (omega arith)

abbrev one_replica : ReplicationManager
one_replica = record {
  slave_connections = (7, some (record { write_buffer = []; replica_offset = pos 0 })) ∷ [];
  blocked_wait_clients = [];
  offset = 100;
}

abbrev requests : List (Command ℕ × ℕ)
requests =
    (set_example, length (to_resp set_example)) ∷ (incr_example, length (to_resp incr_example)) ∷ []

propagate_all-send_all_example :
    ((propagate_all requests one_replica).slave_connections
      ≡ send_all (printed (writes requests)) one_replica.slave_connections)
    × ((propagate_all requests one_replica).offset ≡ 100 + write_bytes requests)
unfolding write_bytes is_write_command to_resp counted encode_items encode_bulk_string
    encode_array_header print_u64 print_digits option_args
propagate_all-send_all_example =
    propagate_all-send_all requests 7 (record { write_buffer = []; replica_offset = pos 0 }) []
      one_replica refl tt (omega arith)

propagate_all-process_commands_example :
    let s =
      replica_with (first_buffer (propagate_all requests one_replica).slave_connections) 100 in
    (t : SlaveReplicationClient (List (Command ℕ))) × (process_commands run_log 3 s ≡ some t)
    × (t.db ≡ execute_all run_log (writes requests) [])
    × (t.read_buffer ≡ [])
    × (t.bytes_processed ≡ (propagate_all requests one_replica).offset)
unfolding write_bytes writes is_write_command IsPrinted to_resp counted encode_items
    encode_bulk_string encode_array_header print_u64 print_digits option_args
propagate_all-process_commands_example =
    propagate_all-process_commands run_log requests 7
      (record { write_buffer = []; replica_offset = pos 0 }) [] one_replica 3
      (replica_with (first_buffer (propagate_all requests one_replica).slave_connections) 100) refl
      tt refl (set_example-Sendable, (incr_example-Sendable, tt)) (refl, (refl, tt)) refl refl
      (omega arith) (omega arith)

-- A client waits for one replica.
abbrev one_waits : ReplicationManager
one_waits = record { slave_connections = []; blocked_wait_clients = []; offset = 5 }

IsReachable-IsWaiting_example :
    let m = (handle_wait 0 8 1 1000 one_waits).1 in
    All (IsWaiting m.slave_connections) m.blocked_wait_clients
IsReachable-IsWaiting_example =
    IsReachable-IsWaiting {D = ℕ} (handle_wait 0 8 1 1000 one_waits).1
      (stepped (started 5) (waited 0 8 1 1000 one_waits (omega arith)))

abbrev joining : List ℕ → SlaveReplicationClient (List (Command ℕ))
joining buffer = record {
  replication_status = psync_sent;
  port = 6380;
  is_handshake_completed = false;
  repl_id = b'?' ∷ [];
  offset = negsuc 0;
  bytes_processed = 0;
  read_buffer = buffer;
  write_buffer = [];
  db = [];
}

abbrev id_text : Text
id_text = b'8' ∷ b'3' ∷ []

abbrev small_rdb : List ℕ
small_rdb = 82 ∷ 69 ∷ 68 ∷ []

handle_handshake_read-psync_reply_example :
    handle_handshake_read (joining (psync_reply id_text small_rdb ++ printed two_commands))
    ≡ record (joining (psync_reply id_text small_rdb ++ printed two_commands)) {
      replication_status = handshake_success;
      is_handshake_completed = true;
      read_buffer = printed two_commands;
    }
handle_handshake_read-psync_reply_example =
    handle_handshake_read-psync_reply id_text small_rdb (printed two_commands)
      (joining (psync_reply id_text small_rdb ++ printed two_commands)) (refl, (refl, tt))
      (omega arith) refl refl

abbrev half_read : List ℕ
half_read = encode_simple_string [] id_text ++ (b'$' ∷ (print_u64 3 ++ (b'\r' ∷ b'\n' ∷ 82 ∷ [])))

handle_handshake_read-part_example :
    let header = b'$' ∷ (print_u64 3 ++ (b'\r' ∷ b'\n' ∷ 82 ∷ [])) in
    let later = record (joining half_read) { read_buffer = header ++ (69 ∷ 68 ∷ []) } in
    (handle_handshake_read (joining half_read)
      ≡ record (joining half_read) { read_buffer = header })
    × (handle_handshake_read later ≡ later)
handle_handshake_read-part_example =
    handle_handshake_read-part id_text (82 ∷ []) (69 ∷ 68 ∷ []) 3 (joining half_read)
      (refl, (refl, tt)) (omega arith) (omega arith) refl refl

abbrev two_waiting : List BlockedWaitClient
two_waiting =
    record {
      client = true;
      client_fd = 8;
      timeout_at = none;
      num_replicas_needed = 1;
      master_offset = pos 5;
    }
    ∷ record {
      client = true;
      client_fd = 9;
      timeout_at = some 1500;
      num_replicas_needed = 1;
      master_offset = pos 5;
    }
    ∷ []

get_next_wait_timeout_ms-IsLeast_example :
    IsLeast 1000 two_waiting (get_next_wait_timeout_ms 1000 two_waiting)
get_next_wait_timeout_ms-IsLeast_example =
    get_next_wait_timeout_ms-IsLeast 1000 two_waiting (tt, (omega arith, tt))
