-- ===== src/Replication/Agreement.antt =====
-- The master and a replica together: the replica executes what the master executed.
use carrotdb.Base.{
  ℕ, ◌+◌, ◌^◌, ◌<◌, ◌≡◌, refl, ap, ◌∙◌, List, [], ◌∷◌, ◌++◌, Option, none, some, length,
  length-append, All, arith, true, false, Bool-cases, inl, inr,
}
use carrotdb.Commands.Doubles.{Doubles}
use carrotdb.Commands.Command.{Command, is_write_command}
use carrotdb.Commands.Print.{to_resp}
use carrotdb.Commands.Names.{Text}
use carrotdb.Commands.Codec.Words.{
  Carries, ping_text, echo_text, set_text, get_text, type_text, incr_text, rpush_text, lpush_text,
  llen_text, lpop_text, lpop_count_text, xadd_text, xrange_text, multi_text, exec_text,
  discard_text, zrank_text, zcard_text, zscore_text, zrem_text,
}
use carrotdb.Replication.Slave.{SlaveReplicationClient, process_commands}
use carrotdb.Replication.Replay.{is_multi, Sendable, printed, execute_all, process_commands-printed}
use carrotdb.Replication.Master.{Replica, ReplicationManager, Connections, append_to, send_all}
use carrotdb.Replication.Propagation.{
  IsAlive, propagate_all, writes, write_bytes, propagate_all-send_all,
}

unfoldable pub bytes_of : Option Replica → List ℕ
bytes_of none = []
bytes_of (some r) = r.write_buffer

-- What waits to be written to the first of the replicas.
unfoldable pub first_buffer : Connections → List ℕ
first_buffer [] = []
first_buffer (c ∷ cs) = bytes_of c.1

module _ {D : Type 0} ⦃f : Doubles D⦄ where
  -- A command whose client sent it in the form in which the master prints it.
  unfoldable pub IsPrinted : Command D × ℕ → Type 0
  IsPrinted c = c.1 ≡ length (to_resp c.0)

  write_bytes-printed :
      (l : List (Command D × ℕ)) → All IsPrinted l → write_bytes l ≡ length (printed (writes l))
  unfolding writes write_bytes printed IsPrinted
  write_bytes-printed [] h = refl
  write_bytes-printed ((command, bytes) ∷ l) h =
      let rest = write_bytes-printed l h.1 in
      elim (Bool-cases (is_write_command command)) [
        | inl w ↦
            rw w (omega (arith, h.0, rest, length-append (to_resp command) (printed (writes l))))
        | inr w ↦ rw w rest
      ]

-- A command that the master sends on begins no transaction.
write-plain :
    {D : Type 0} {cmd : Command D} {name : Text} {args : List Text}
    → Carries cmd name args
    → is_write_command cmd ≡ true
    → is_multi cmd ≡ false
unfolding is_write_command is_multi
write-plain ping_text w = refl
write-plain (echo_text message) w = refl
write-plain (set_text key value ex px h0 h1) w = refl
write-plain (get_text key) w = refl
write-plain (type_text key) w = refl
write-plain (incr_text key) w = refl
write-plain (rpush_text key values) w = refl
write-plain (lpush_text key values) w = refl
write-plain (llen_text key) w = refl
write-plain (lpop_text key) w = refl
write-plain (lpop_count_text key count h0) w = refl
write-plain (xadd_text key stream_id fs) w = refl
write-plain (xrange_text key start end) w = refl
write-plain multi_text w = absurd (let clash : false ≡ true = w in ground arith)
write-plain exec_text w = refl
write-plain discard_text w = refl
write-plain (zrank_text key member) w = refl
write-plain (zcard_text key) w = refl
write-plain (zscore_text key member) w = refl
write-plain (zrem_text key members) w = refl

writes-plain :
    {D : Type 0} ⦃f : Doubles D⦄ (l : List (Command D × ℕ))
    → All Sendable (writes l)
    → All (λ cmd. is_multi cmd ≡ false) (writes l)
unfolding writes
writes-plain [] all = tt
writes-plain ((command, bytes) ∷ l) all = elim (Bool-cases (is_write_command command)) [
  | inl w ↦
      let (first, others) : Sendable command × All Sendable (writes l) = rw w at all in
      let (name, args, c, texts, few) = first in rw w (write-plain c w, writes-plain l others)
  | inr w ↦ rw w (writes-plain l (rw w at all))
]

module _ {D : Type 0} {S : Type 0} ⦃f : Doubles D⦄ (execute : Command D → S → S) where
  -- The master executes commands one after the other, every replica's client is there, nothing
  -- waits to be written to the first of the replicas, each writing command is one of Carries (a
  -- command without a double, whose texts hold no '\r' and fewer than 2 ^ 64 bytes, with fewer than
  -- 2 ^ 31 arguments), each command came in the form in which the master prints it, and the offset
  -- stays below 2 ^ 64. Then a replica with the master's count, whose buffer gets what was written
  -- for it, executes exactly the writing commands in their order, for any number of passes above
  -- their number; it leaves nothing in its buffer, and its count of bytes is the master's offset.
  pub propagate_all-process_commands :
      (l : List (Command D × ℕ)) (fd : ℕ) (r : Replica) (cs : Connections) (m : ReplicationManager)
      (fuel : ℕ) (s : SlaveReplicationClient S)
      → m.slave_connections ≡ (fd, some r) ∷ cs
      → All IsAlive cs
      → r.write_buffer ≡ []
      → All Sendable (writes l)
      → All IsPrinted l
      → s.read_buffer ≡ first_buffer (propagate_all l m).slave_connections
      → s.bytes_processed ≡ m.offset
      → m.offset + write_bytes l < 2 ^ 64
      → length (writes l) < fuel
      → (t : SlaveReplicationClient S) × (process_commands execute fuel s ≡ some t)
        × (t.db ≡ execute_all execute (writes l) s.db)
        × (t.read_buffer ≡ [])
        × (t.bytes_processed ≡ (propagate_all l m).offset)
  unfolding first_buffer bytes_of send_all append_to
  propagate_all-process_commands l fd r cs m fuel s e alive clean sendable same_bytes buffer count
        small enough =
      let (sent, offset) = propagate_all-send_all l fd r cs m e alive small in
      let size = write_bytes-printed l same_bytes in
      let arrived : s.read_buffer ≡ printed (writes l) =
        buffer ∙ ap first_buffer sent ∙ ap (λ b. b ++ printed (writes l)) clean in
      let (t, done, same_db, empty, total) =
        process_commands-printed execute (writes l) fuel s sendable (writes-plain l sendable)
          arrived enough (omega arith) in
      (t, done, same_db, empty, omega arith)
