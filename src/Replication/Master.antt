-- ===== src/Replication/Master.antt =====
-- replication.cpp: the master's side. A connection is its descriptor and, while it lives, what the
-- master keeps of its client; the connections stand in the order in which the map is walked.
use carrotdb.Base.{
  ℕ, suc, ◌*◌, ◌/◌, ◌||◌, ◌+◌, ◌%◌, ◌^◌, Bool, true, false, not, List, [], ◌∷◌, ◌++◌, Option, none,
  some, length, leb, ◌==◌, if◌then◌else◌,
}
use carrotdb.Base.Int.{ℤ, pos, pos_part, leb_ℤ}
use carrotdb.Base.Decimal.{print_u64}
use carrotdb.Resp.Encode.{
  encode_simple_string, encode_array_header, encode_items, encode_integer_reply,
}
use carrotdb.Commands.Names.{Text, replconf_word, getack_word, star_word}
use carrotdb.Commands.Doubles.{Doubles}
use carrotdb.Commands.Command.{Command, ReplConfType, ack, is_write_command}
use carrotdb.Commands.Read.{to_signed_64}
use carrotdb.Commands.Print.{to_resp}
use carrotdb.Replication.Slave.{ok_word}

pub record Replica : Type 0 where
  pub write_buffer : List ℕ
  pub replica_offset : ℤ

-- A client that waits. Its answer goes to the descriptor if the client is still there; the time is
-- none where it waits without an end.
pub record BlockedWaitClient : Type 0 where
  pub client : Bool
  pub client_fd : ℕ
  pub timeout_at : Option ℕ
  pub num_replicas_needed : ℕ
  pub master_offset : ℤ

-- The replicas, the clients that wait, and the offset of the configuration.
pub record ReplicationManager : Type 0 where
  pub slave_connections : List (ℕ × Option Replica)
  pub blocked_wait_clients : List BlockedWaitClient
  pub offset : ℕ

abbrev pub Connections : Type 0
Connections = List (ℕ × Option Replica)

unfoldable pub remove_slave_connection : ℕ → Connections → Connections
remove_slave_connection fd [] = []
remove_slave_connection fd (c ∷ cs) =
    let rest = remove_slave_connection fd cs in if c.0 == fd then rest else c ∷ rest

-- The entry of a descriptor is replaced, or a new one is made.
unfoldable pub add_slave_connection : ℕ → Replica → Connections → Connections
add_slave_connection fd r [] = (fd, some r) ∷ []
add_slave_connection fd r (c ∷ cs) =
    let rest = add_slave_connection fd r cs in if c.0 == fd then (fd, some r) ∷ cs else c ∷ rest

unfoldable pub append_to : List ℕ → Option Replica → Option Replica
append_to bytes none = none
append_to bytes (some r) = some (record r { write_buffer = r.write_buffer ++ bytes })

-- The bytes to every replica that is there.
unfoldable pub send_all : List ℕ → Connections → Connections
send_all bytes [] = []
send_all bytes ((fd, r) ∷ cs) = (fd, append_to bytes r) ∷ send_all bytes cs

unfoldable pub inactive_fds : Connections → List ℕ
inactive_fds [] = []
inactive_fds ((fd, none) ∷ cs) = fd ∷ inactive_fds cs
inactive_fds ((fd, some r) ∷ cs) = inactive_fds cs

unfoldable pub remove_all : List ℕ → Connections → Connections
remove_all [] cs = cs
remove_all (fd ∷ fds) cs = remove_all fds (remove_slave_connection fd cs)

module _ {D : Type 0} ⦃f : Doubles D⦄ where
  unfoldable pub propagate_write : Command D → ℕ → ReplicationManager → ReplicationManager
  propagate_write command bytes m = record m {
    slave_connections =
        remove_all (inactive_fds m.slave_connections)
          (send_all (to_resp command) m.slave_connections);
    offset = (m.offset + bytes) % 2 ^ 64;
  }

  unfoldable pub propagate_to :
      Connections → Option (Command D × ℕ) → ReplicationManager → Bool × ReplicationManager
  propagate_to [] command m = (false, m)
  propagate_to (c ∷ cs) none m = (false, m)
  propagate_to (c ∷ cs) (some (command, bytes)) m =
      if is_write_command command then (true, propagate_write command bytes m) else (false, m)

  -- The command and the bytes that it took in the client's buffer; none where it was moved away.
  unfoldable pub handle_propagate :
      Option (Command D × ℕ) → ReplicationManager → Bool × ReplicationManager
  handle_propagate command m = propagate_to m.slave_connections command m

-- Whether a replica has acknowledged an offset.
unfoldable pub has_acked : ℤ → Option Replica → Bool
has_acked offset none = false
has_acked offset (some r) = leb_ℤ offset r.replica_offset

unfoldable pub acked_replicas : ℤ → Connections → ℕ
acked_replicas offset [] = 0
acked_replicas offset (c ∷ cs) =
    let rest = acked_replicas offset cs in if has_acked offset c.1 then suc rest else rest

unfoldable pub count_reply : ℕ → Text
count_reply n = encode_integer_reply [] (pos n)

-- What the clients get, by descriptor, and the descriptor that is unblocked, which is the last one.
pub record Answers : Type 0 where
  pub replies : List (ℕ × Text)
  pub unblocked_client_fd : Option ℕ

unfoldable pub answer : ℕ → ℕ → Answers → Answers
answer fd n a = record {
  replies = (fd, count_reply n) ∷ a.replies;
  unblocked_client_fd = elim a.unblocked_client_fd [ none ↦ some fd | some later ↦ some later ];
}

-- One client of the loop, in front of what the loop does with the others.
unfoldable pub check_client :
    Connections
    → BlockedWaitClient
    → List BlockedWaitClient × Answers
    → List BlockedWaitClient × Answers
check_client cs b (left, a) =
    if not b.client
    then (left, a)
    else if leb b.num_replicas_needed (acked_replicas b.master_offset cs)
    then (left, answer b.client_fd (acked_replicas b.master_offset cs) a)
    else (b ∷ left, a)

unfoldable pub check_blocked_wait_clients :
    Connections → List BlockedWaitClient → List BlockedWaitClient × Answers
check_blocked_wait_clients cs [] = ([], record { replies = []; unblocked_client_fd = none })
check_blocked_wait_clients cs (b ∷ bs) = check_client cs b (check_blocked_wait_clients cs bs)

-- The clock counts nanoseconds in a signed 64-bit integer; a sum that is too large comes round, as the
-- processor's addition does, and a negative one lies in the past.
unfoldable pub clock_time : ℕ → ℕ
clock_time ms = pos_part (to_signed_64 (ms * 1000000 % 2 ^ 64))

-- `timeout_at` is the end of time for a timeout of 0, else a time in whole milliseconds, rounded up.
unfoldable pub deadline : ℕ → ℕ → Option ℕ
deadline now timeout_ms =
    if timeout_ms == 0 then none else some ((clock_time (now + timeout_ms) + 999999) / 1000000)

unfoldable pub is_expired : ℕ → Option ℕ → Bool
is_expired now none = false
is_expired now (some at) = leb at now

unfoldable pub expire_client :
    ℕ
    → Connections
    → BlockedWaitClient
    → List BlockedWaitClient × List (ℕ × Text)
    → List BlockedWaitClient × List (ℕ × Text)
expire_client now cs b (left, replies) =
    if not (is_expired now b.timeout_at)
    then (b ∷ left, replies)
    else if b.client
    then (left, (b.client_fd, count_reply (acked_replicas b.master_offset cs)) ∷ replies)
    else (left, replies)

-- The clients whose time is over get the number of replicas so far; their descriptors are returned.
unfoldable pub check_and_expire_blocked_wait_clients :
    ℕ → Connections → List BlockedWaitClient → List BlockedWaitClient × List (ℕ × Text)
check_and_expire_blocked_wait_clients now cs [] = ([], [])
check_and_expire_blocked_wait_clients now cs (b ∷ bs) =
    expire_client now cs b (check_and_expire_blocked_wait_clients now cs bs)

unfoldable pub getack_cmd : Text
getack_cmd = encode_items (encode_array_header [] 3) (replconf_word ∷ getack_word ∷ star_word ∷ [])

-- The answer at once, or none for a client that is blocked now.
unfoldable pub handle_wait : ℕ → ℕ → ℕ → ℕ → ReplicationManager → Option Text × ReplicationManager
handle_wait now fd num_replicas_needed timeout_ms m =
    let already_acked = acked_replicas (to_signed_64 m.offset) m.slave_connections in
    if m.offset == 0
    then (some (count_reply (length m.slave_connections)), m)
    else if leb num_replicas_needed already_acked
    then (some (count_reply already_acked), m)
    else (
      none,
      record m {
        slave_connections = send_all getack_cmd m.slave_connections;
        blocked_wait_clients =
            m.blocked_wait_clients
            ++ (record {
              client = true;
              client_fd = fd;
              timeout_at = deadline now timeout_ms;
              num_replicas_needed = num_replicas_needed;
              master_offset = to_signed_64 m.offset;
            }
                ∷ []);
      },
    )

unfoldable pub set_offset : ℤ → Option Replica → Option Replica
set_offset offset none = none
set_offset offset (some r) = some (record r { replica_offset = offset })

-- The offset of the client with this descriptor.
unfoldable pub ack_offset : ℕ → ℤ → Connections → Connections
ack_offset fd offset [] = []
ack_offset fd offset (c ∷ cs) =
    let rest = ack_offset fd offset cs in
    (if c.0 == fd then (c.0, set_offset offset c.1) else c) ∷ rest

-- An acknowledgement answers the clients that wait; anything else gets OK.
unfoldable pub handle_replconf :
    ReplConfType → ℤ → ℕ → ReplicationManager → Text × Answers × ReplicationManager
handle_replconf ack offset fd m =
    let cs = ack_offset fd offset m.slave_connections in
    let checked = check_blocked_wait_clients cs m.blocked_wait_clients in
    ([], checked.1, record m { slave_connections = cs; blocked_wait_clients = checked.0 })
handle_replconf subcommand offset fd m =
    (encode_simple_string [] ok_word, record { replies = []; unblocked_client_fd = none }, m)

abbrev pub fullresync_word : Text
fullresync_word = b'F' ∷ b'U' ∷ b'L' ∷ b'L' ∷ b'R' ∷ b'E' ∷ b'S' ∷ b'Y' ∷ b'N' ∷ b'C' ∷ b' ' ∷ []

-- The line of FULLRESYNC, and the bytes of the snapshot behind their number.
unfoldable pub psync_reply : Text → List ℕ → List ℕ
psync_reply replication_id rdb_content =
    encode_simple_string [] (fullresync_word ++ (replication_id ++ (b' ' ∷ b'0' ∷ [])))
    ++ (b'$' ∷ (print_u64 (length rdb_content) ++ (b'\r' ∷ b'\n' ∷ rdb_content)))

-- The answer, which is flushed to the client with the request, and the client as a replica, where the
-- request has a connection and the client is none yet.
unfoldable pub handle_psync :
    Text → List ℕ → ℕ → Bool → Bool → Replica → ReplicationManager → List ℕ × ReplicationManager
handle_psync replication_id rdb_content fd isslave connection r m = (
  psync_reply replication_id rdb_content,
  if isslave || not connection
      then m
      else record m { slave_connections = add_slave_connection fd r m.slave_connections },
)
