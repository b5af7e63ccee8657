-- ===== src/Replication/Waiting.antt =====
-- The clients that WAIT blocks: none of them is left waiting once enough replicas have acknowledged
-- its offset.
use carrotdb.Base.{
  ℕ, ◌+◌, ◌%◌, ◌^◌, ◌<◌, ◌≤◌, ◌≡◌, ap, ◌∙◌, Bool, true, false, List, [], ◌∷◌, Option, none, some,
  All, All-append, arith, ◌==◌, leb, Bool-cases, inl, inr,
}
use carrotdb.Base.Int.{ℤ, pos, leb_ℤ}
use carrotdb.Commands.Doubles.{Doubles}
use carrotdb.Commands.Command.{
  Command, ReplConfType, ack, listening_port, capa, getack, is_write_command,
}
use carrotdb.Commands.Print.{to_resp}
use carrotdb.Commands.Read.{to_signed_64}
use carrotdb.Replication.Master.{
  Replica, BlockedWaitClient, ReplicationManager, Connections, remove_slave_connection,
  add_slave_connection, send_all, inactive_fds, remove_all, propagate_write, propagate_to,
  handle_propagate, acked_replicas, deadline, check_and_expire_blocked_wait_clients, getack_cmd,
  handle_wait, ack_offset, handle_replconf, handle_psync,
}
use carrotdb.Replication.Acknowledged.{
  IsWaiting, acked_replicas-add, acked_replicas-remove, acked_replicas-remove_all,
  acked_replicas-send_all, check-All, check_blocked_wait_clients-IsWaiting, expire-All,
}

abbrev pub AllWaiting : ReplicationManager → Type 0
AllWaiting m = All (IsWaiting m.slave_connections) m.blocked_wait_clients

IsWaiting-fewer :
    (cs ds : Connections) (bs : List BlockedWaitClient)
    → ((offset : ℤ) → acked_replicas offset ds ≤ acked_replicas offset cs)
    → All (IsWaiting cs) bs
    → All (IsWaiting ds) bs
unfolding IsWaiting
IsWaiting-fewer cs ds [] le h = h
IsWaiting-fewer cs ds (b ∷ bs) le h =
    (omega (arith, le b.master_offset, h.0), IsWaiting-fewer cs ds bs le h.1)

-- An offset above 0, which no new replica has acknowledged.
unfoldable pub IsAhead : BlockedWaitClient → Type 0
IsAhead b = leb_ℤ b.master_offset (pos 0) ≡ false

IsWaiting-add :
    (fd : ℕ) (r : Replica) (cs : Connections) (bs : List BlockedWaitClient)
    → r.replica_offset ≡ pos 0
    → All IsAhead bs
    → All (IsWaiting cs) bs
    → All (IsWaiting (add_slave_connection fd r cs)) bs
unfolding IsWaiting IsAhead
IsWaiting-add fd r cs [] e a h = h
IsWaiting-add fd r cs (b ∷ bs) e a h = (
  omega
      (arith, h.0, acked_replicas-add fd r b.master_offset cs (ap (leb_ℤ b.master_offset) e ∙ a.0)),
  IsWaiting-add fd r cs bs e a.1 h.1,
)

-- What the master's operations do to its state.
pub data MasterStep (D : Type 0) ⦃f : Doubles D⦄
    : ReplicationManager → ReplicationManager → Type 0 where
  waited :
      (now fd needed timeout_ms : ℕ) (m : ReplicationManager)
      → m.offset < 2 ^ 63
      → MasterStep D m (handle_wait now fd needed timeout_ms m).1
  configured :
      (subcommand : ReplConfType) (offset : ℤ) (fd : ℕ) (m : ReplicationManager)
      → MasterStep D m (handle_replconf subcommand offset fd m).2
  propagated :
      (command : Option (Command D × ℕ)) (m : ReplicationManager)
      → MasterStep D m (handle_propagate command m).1
  expired :
      (now : ℕ) (m : ReplicationManager)
      → MasterStep D m (record m {
        blocked_wait_clients =
            (check_and_expire_blocked_wait_clients now m.slave_connections
              m.blocked_wait_clients).0;
      })
  joined :
      (replication_id : List ℕ) (rdb : List ℕ) (fd : ℕ) (isslave connection : Bool) (r : Replica)
      (m : ReplicationManager)
      → r.replica_offset ≡ pos 0
      → MasterStep D m (handle_psync replication_id rdb fd isslave connection r m).1
  removed :
      (fd : ℕ) (m : ReplicationManager)
      → MasterStep D m
          (record m { slave_connections = remove_slave_connection fd m.slave_connections })

abbrev pub IsConsistent : ReplicationManager → Type 0
IsConsistent m = AllWaiting m × All IsAhead m.blocked_wait_clients

handle_wait-IsConsistent :
    (now fd needed timeout_ms : ℕ) (m : ReplicationManager)
    → m.offset < 2 ^ 63
    → IsConsistent m
    → IsConsistent (handle_wait now fd needed timeout_ms m).1
unfolding handle_wait IsWaiting IsAhead to_signed_64
handle_wait-IsConsistent now fd needed timeout_ms m small (w, a) =
    let ds = send_all getack_cmd m.slave_connections in
    let new : BlockedWaitClient = record {
      client = true;
      client_fd = fd;
      timeout_at = deadline now timeout_ms;
      num_replicas_needed = needed;
      master_offset = to_signed_64 m.offset;
    } in
    elim (Bool-cases (m.offset == 0)) [
      | inl z ↦ rw z (w, a)
      | inr z ↦
          rw z
            (elim (Bool-cases
              (leb needed (acked_replicas (to_signed_64 m.offset) m.slave_connections))) [
                | inl k ↦ rw k (w, a)
                | inr k ↦ rw k (
                  All-append (IsWaiting ds) m.blocked_wait_clients (new ∷ [])
                      (IsWaiting-fewer m.slave_connections ds m.blocked_wait_clients
                        (λ offset.
                          omega
                            (arith, acked_replicas-send_all getack_cmd offset m.slave_connections))
                        w)
                      (
                        rw
                            (acked_replicas-send_all getack_cmd (to_signed_64 m.offset)
                              m.slave_connections)
                            (ground arith),
                        tt,
                      ),
                  All-append IsAhead m.blocked_wait_clients (new ∷ []) a (ground arith, tt),
                )
              ])
    ]

handle_replconf-IsConsistent :
    (subcommand : ReplConfType) (offset : ℤ) (fd : ℕ) (m : ReplicationManager)
    → IsConsistent m
    → IsConsistent (handle_replconf subcommand offset fd m).2
unfolding handle_replconf
handle_replconf-IsConsistent ack offset fd m (w, a) =
    let cs = ack_offset fd offset m.slave_connections in
    (
      check_blocked_wait_clients-IsWaiting cs m.blocked_wait_clients,
      check-All IsAhead cs m.blocked_wait_clients a,
    )
handle_replconf-IsConsistent listening_port offset fd m c = c
handle_replconf-IsConsistent capa offset fd m c = c
handle_replconf-IsConsistent getack offset fd m c = c

-- A step that keeps the clients that wait, and leaves no offset with more acknowledgements.
IsConsistent-fewer :
    (m : ReplicationManager) (ds : Connections) (offset : ℕ)
    → ((o : ℤ) → acked_replicas o ds ≤ acked_replicas o m.slave_connections)
    → IsConsistent m
    → IsConsistent (record m { slave_connections = ds; offset = offset })
IsConsistent-fewer m ds offset le (w, a) =
    (IsWaiting-fewer m.slave_connections ds m.blocked_wait_clients le w, a)

module _ {D : Type 0} ⦃f : Doubles D⦄ where
  propagate_to-IsConsistent :
      (cs : Connections) (command : Option (Command D × ℕ)) (m : ReplicationManager)
      → IsConsistent m
      → IsConsistent (propagate_to cs command m).1
  unfolding propagate_to propagate_write
  propagate_to-IsConsistent [] command m h = h
  propagate_to-IsConsistent (c ∷ cs) none m h = h
  propagate_to-IsConsistent (c ∷ cs) (some (command, bytes)) m h =
      let sent = send_all (to_resp command) m.slave_connections in
      elim (Bool-cases (is_write_command command)) [
        | inr e ↦ rw e h
        | inl e ↦ rw e (
            IsConsistent-fewer m (remove_all (inactive_fds m.slave_connections) sent)
              ((m.offset + bytes) % 2 ^ 64)
              (λ o. omega (
                arith,
                acked_replicas-remove_all (inactive_fds m.slave_connections) o sent,
                acked_replicas-send_all (to_resp command) o m.slave_connections,
              ))
              h)
      ]

  MasterStep-IsConsistent :
      {m n : ReplicationManager} → MasterStep D m n → IsConsistent m → IsConsistent n
  unfolding handle_propagate handle_psync
  MasterStep-IsConsistent (waited now fd needed timeout_ms m small) h =
      handle_wait-IsConsistent now fd needed timeout_ms m small h
  MasterStep-IsConsistent (configured subcommand offset fd m) h =
      handle_replconf-IsConsistent subcommand offset fd m h
  MasterStep-IsConsistent (propagated command m) h =
      propagate_to-IsConsistent m.slave_connections command m h
  MasterStep-IsConsistent (expired now m) (w, a) = (
    expire-All m.slave_connections (IsWaiting m.slave_connections) now m.blocked_wait_clients w,
    expire-All m.slave_connections IsAhead now m.blocked_wait_clients a,
  )
  MasterStep-IsConsistent (joined replication_id rdb fd true connection r m e) h = h
  MasterStep-IsConsistent (joined replication_id rdb fd false false r m e) h = h
  MasterStep-IsConsistent (joined replication_id rdb fd false true r m e) (w, a) =
      (IsWaiting-add fd r m.slave_connections m.blocked_wait_clients e a w, a)
  MasterStep-IsConsistent (removed fd m) h =
      IsConsistent-fewer m (remove_slave_connection fd m.slave_connections) m.offset
        (λ o. acked_replicas-remove fd o m.slave_connections) h

-- The states of a master that started with no replica and no client that waits.
pub data IsReachable (D : Type 0) ⦃f : Doubles D⦄ : ReplicationManager → Type 0 where
  started :
      (offset : ℕ)
      → IsReachable D
          (record { slave_connections = []; blocked_wait_clients = []; offset = offset })
  stepped : {m n : ReplicationManager} → IsReachable D m → MasterStep D m n → IsReachable D n

module _ {D : Type 0} ⦃f : Doubles D⦄ where
  IsReachable-IsConsistent : {m : ReplicationManager} → IsReachable D m → IsConsistent m
  IsReachable-IsConsistent (started offset) = (tt, tt)
  IsReachable-IsConsistent (stepped h step) =
      MasterStep-IsConsistent step (IsReachable-IsConsistent h)

  -- In every state that a master reaches from its start by WAIT (at an offset below 2 ^ 63),
  -- REPLCONF, propagation, expiry, PSYNC of a client that has acknowledged nothing, and the removal
  -- of a replica, each client that is blocked still waits with reason: fewer replicas than it needs
  -- have acknowledged its offset.
  pub IsReachable-IsWaiting :
      (m : ReplicationManager)
      → IsReachable D m
      → All (IsWaiting m.slave_connections) m.blocked_wait_clients
  IsReachable-IsWaiting m h = (IsReachable-IsConsistent h).0
