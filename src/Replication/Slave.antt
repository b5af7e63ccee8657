-- ===== src/Replication/Slave.antt =====
-- slave-replication.h and slave-replication.cpp: the replica's side of the connection to its master.
use carrotdb.Base.{
  ℕ, zero, suc, ◌+◌, ◌-◌, ◌%◌, ◌^◌, Bool, true, false, ◌&&◌, List, [], ◌∷◌, Option, none, some,
  length, take, drop, ltb, ◌==◌, if◌then◌else◌,
}
use carrotdb.Base.Int.{ℤ}
use carrotdb.Base.Decimal.{print_u64, print_i64}
use carrotdb.Utils.{is_equal, convert_positive_string_to_number}
use carrotdb.Resp.Encode.{encode_array_header, encode_items}
use carrotdb.Resp.Parser.{parse_simple_string}
use carrotdb.Commands.Names.{
  Text, ping_word, replconf_word, listening_port_word, capa_word, psync_word, ack_word,
}
use carrotdb.Commands.Doubles.{Doubles}
use carrotdb.Commands.Command.{Command, getack, unknow_command, multi_command, repl_conf_command}
use carrotdb.Commands.Read.{to_signed_64}
use carrotdb.Commands.Dispatch.{Parsed, parse_command}

abbrev pub pong_word : Text
pong_word = b'P' ∷ b'O' ∷ b'N' ∷ b'G' ∷ []

abbrev pub ok_word : Text
ok_word = b'O' ∷ b'K' ∷ []

abbrev pub psync2_word : Text
psync2_word = b'p' ∷ b's' ∷ b'y' ∷ b'n' ∷ b'c' ∷ b'2' ∷ []

pub data ReplicationStatus : Type 0 where
  idle ping_sent ping_sent_success replconf_port_sent replconf_port_success : ReplicationStatus
  replconf_capa_sent replconf_capa_success psync_sent handshake_success : ReplicationStatus

-- The client and what it uses of its database. The bytes are an int64_t, of which the 64 bits are
-- kept.
pub record SlaveReplicationClient (S : Type 0) : Type 0 where
  pub replication_status : ReplicationStatus
  pub port : ℕ
  pub is_handshake_completed : Bool
  pub repl_id : Text
  pub offset : ℤ
  pub bytes_processed : ℕ
  pub read_buffer : List ℕ
  pub write_buffer : List ℕ
  pub db : S

-- `find("\r\n", from)`: the bytes behind `from`, which is the position of the first of them.
unfoldable pub find_crlf : List ℕ → ℕ → Option ℕ
find_crlf [] from = none
find_crlf (x ∷ []) from = none
find_crlf (x ∷ (y ∷ rest)) from =
    let later = find_crlf (y ∷ rest) (from + 1) in
    if (x == b'\r') && (y == b'\n') then some from else later

module _ {S : Type 0} where
  -- The message of a state, and the state behind it.
  unfoldable pub send :
      List Text → ReplicationStatus → SlaveReplicationClient S → SlaveReplicationClient S
  send words status s = record s {
    write_buffer = encode_items (encode_array_header s.write_buffer (length words)) words;
    replication_status = status;
  }

  unfoldable pub prepare_handshake_write : SlaveReplicationClient S → SlaveReplicationClient S
  prepare_handshake_write s = elim s.replication_status [
    | idle ↦ send (ping_word ∷ []) ping_sent s
    | ping_sent ↦ s
    | ping_sent_success ↦
        send (replconf_word ∷ listening_port_word ∷ print_u64 s.port ∷ []) replconf_port_sent s
    | replconf_port_sent ↦ s
    | replconf_port_success ↦
        send (replconf_word ∷ capa_word ∷ psync2_word ∷ []) replconf_capa_sent s
    | replconf_capa_sent ↦ s
    | replconf_capa_success ↦ send (psync_word ∷ s.repl_id ∷ print_i64 s.offset ∷ []) psync_sent s
    | psync_sent ↦ s
    | handshake_success ↦ s
  ]

  -- The handshake is over; the commands that are left stay in the buffer.
  unfoldable pub complete : SlaveReplicationClient S → SlaveReplicationClient S
  complete s = record s { replication_status = handshake_success; is_handshake_completed = true }

  -- The snapshot whose length is read, with the end of its header.
  unfoldable pub skip_content : Option ℕ → ℕ → SlaveReplicationClient S → SlaveReplicationClient S
  skip_content none length_end s = complete s
  skip_content (some rdb_length) length_end s =
      let rdb_end = (length_end + 2 + rdb_length) % 2 ^ 64 in
      if ltb (length s.read_buffer) rdb_end
      then s
      else complete (record s { read_buffer = drop rdb_end s.read_buffer })

  unfoldable pub skip_header : Option ℕ → SlaveReplicationClient S → SlaveReplicationClient S
  skip_header none s = s
  skip_header (some length_end) s =
      skip_content
        (convert_positive_string_to_number (take (length_end - 1) (drop 1 s.read_buffer)))
        length_end s

  -- What follows the line of FULLRESYNC.
  unfoldable pub skip_rdb : List ℕ → SlaveReplicationClient S → SlaveReplicationClient S
  skip_rdb [] s = complete s
  skip_rdb (x ∷ rest) s = if x == b'$' then skip_header (find_crlf rest 1) s else complete s

  unfoldable pub cut_line : Option ℕ → SlaveReplicationClient S → SlaveReplicationClient S
  cut_line none s = s
  cut_line (some fullresync_end) s =
      let left = drop (fullresync_end + 2) s.read_buffer in
      skip_rdb left (record s { read_buffer = left })

  -- An answer that is the expected one starts the next message; the buffer is cleared in any case.
  unfoldable pub expect :
      Text → ReplicationStatus → Text → SlaveReplicationClient S → SlaveReplicationClient S
  expect word status response s =
      let cleared = record s { read_buffer = [] } in
      if is_equal response word
      then prepare_handshake_write (record cleared { replication_status = status })
      else cleared

  -- The answer in each state of the handshake.
  unfoldable pub on_response :
      ReplicationStatus → Text → SlaveReplicationClient S → SlaveReplicationClient S
  on_response idle response s = record s { read_buffer = [] }
  on_response ping_sent response s = expect pong_word ping_sent_success response s
  on_response ping_sent_success response s = record s { read_buffer = [] }
  on_response replconf_port_sent response s = expect ok_word replconf_port_success response s
  on_response replconf_port_success response s = record s { read_buffer = [] }
  on_response replconf_capa_sent response s = expect ok_word replconf_capa_success response s
  on_response replconf_capa_success response s = record s { read_buffer = [] }
  on_response psync_sent response s = cut_line (find_crlf s.read_buffer 0) s
  on_response handshake_success response s = record s { read_buffer = [] }

  -- The answer of parse_simple_string and its output.
  unfoldable pub on_answer :
      Bool × Option Text → SlaveReplicationClient S → SlaveReplicationClient S
  on_answer (false, response) s = s
  on_answer (true, none) s = on_response s.replication_status [] s
  on_answer (true, some response) s = on_response s.replication_status response s

  unfoldable pub handle_handshake_read : SlaveReplicationClient S → SlaveReplicationClient S
  handle_handshake_read s = on_answer (parse_simple_string s.read_buffer) s

-- The loop over the commands goes on or ends. Or a MULTI puts the replica's client into a transaction,
-- and there the model ends: DB::execute moves the next command but EXEC and DISCARD to the queue, and
-- the loop reads the count of its bytes through the null pointer that is left. A replica here is one
-- whose client is in no transaction.
pub data Turn (S : Type 0) : Type 0 where
  stop : SlaveReplicationClient S → Turn S
  next : SlaveReplicationClient S → Turn S
  in_transaction : Turn S

module _ {D : Type 0} {S : Type 0} (execute : Command D → S → S) where
  -- The count comes before or after the answer, which does not hold it.
  unfoldable pub count_bytes : ℕ → SlaveReplicationClient S → SlaveReplicationClient S
  count_bytes bytes s = record s { bytes_processed = (s.bytes_processed + bytes) % 2 ^ 64 }

  unfoldable pub answer_getack : SlaveReplicationClient S → SlaveReplicationClient S
  answer_getack s = record s {
    write_buffer =
        encode_items (encode_array_header [] 3)
          (replconf_word ∷ ack_word ∷ print_i64 (to_signed_64 s.bytes_processed) ∷ []);
  }

  -- DB::execute, whose answer is thrown away.
  unfoldable pub run_command : Command D → ℕ → SlaveReplicationClient S → Turn S
  run_command unknow_command bytes s = stop s
  run_command (repl_conf_command getack port capability offset) bytes s =
      next (count_bytes bytes (answer_getack s))
  run_command multi_command bytes s = in_transaction
  run_command command bytes s =
      next (count_bytes bytes (record s { db = execute command s.db; write_buffer = [] }))

  unfoldable pub run_parsed : Parsed D → SlaveReplicationClient S → Turn S
  run_parsed p s = run_command p.command p.bytes (record s { read_buffer = p.read_buffer })

  unfoldable pub run_found : Option (Parsed D) → SlaveReplicationClient S → Option (Turn S)
  run_found none s = none
  run_found (some p) s = some (run_parsed p s)

module _ {D : Type 0} {S : Type 0} ⦃f : Doubles D⦄ (execute : Command D → S → S) where
  -- One command for each unit of fuel; none where it runs out or a transaction begins.
  unfoldable pub process_commands : ℕ → SlaveReplicationClient S → Option (SlaveReplicationClient S)
  process_commands zero s = none
  process_commands (suc fuel) s = elim s.read_buffer [
    | [] ↦ some s
    | x ∷ rest ↦
        elim (run_found execute (parse_command (suc (length s.read_buffer)) s.read_buffer 0) s) [
          | none ↦ none
          | some turn ↦ elim turn [
            | stop s1 ↦ some s1
            | next s1 ↦ process_commands fuel s1
            | in_transaction ↦ none
          ]
        ]
  ]

  -- The messages that arrive, behind what the buffer holds.
  unfoldable pub process_read_buffer :
      ℕ → SlaveReplicationClient S → Option (SlaveReplicationClient S)
  process_read_buffer fuel s =
      if s.is_handshake_completed
      then process_commands fuel s
      else (let t = handle_handshake_read s in
          if t.is_handshake_completed then process_commands fuel t else some t)
