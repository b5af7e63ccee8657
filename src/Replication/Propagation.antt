-- ===== src/Replication/Propagation.antt =====
-- What the replicas get of the commands that the master executes, and what they make of it.
use carrotdb.Base.{
  ℕ, ◌+◌, ◌%◌, ◌^◌, ◌<◌, ◌≡◌, refl, sym, ap, ◌∙◌, Bool, true, false, List, [], ◌∷◌, ◌++◌,
  append_assoc, append-nil, Option, none, some, All, arith, Bool-cases, inl, inr, if◌then◌else◌,
}
use carrotdb.Commands.Doubles.{Doubles}
use carrotdb.Commands.Command.{Command, is_write_command}
use carrotdb.Commands.Print.{to_resp}
use carrotdb.Replication.Replay.{printed}
use carrotdb.Replication.Master.{
  Replica, ReplicationManager, Connections, append_to, send_all, inactive_fds, remove_all,
  propagate_write, propagate_to, handle_propagate,
}

unfoldable pub is_alive : Option Replica → Bool
is_alive none = false
is_alive (some r) = true

-- A connection whose client is there.
abbrev pub IsAlive : ℕ × Option Replica → Type 0
IsAlive c = is_alive c.1 ≡ true

is_alive-append_to :
    (bytes : List ℕ) (r : Option Replica) → is_alive (append_to bytes r) ≡ is_alive r
unfolding is_alive append_to
is_alive-append_to bytes none = refl
is_alive-append_to bytes (some r) = refl

IsAlive-send_all :
    (bytes : List ℕ) (cs : Connections) → All IsAlive cs → All IsAlive (send_all bytes cs)
unfolding send_all
IsAlive-send_all bytes [] h = h
IsAlive-send_all bytes ((fd, r) ∷ cs) h =
    (is_alive-append_to bytes r ∙ h.0, IsAlive-send_all bytes cs h.1)

inactive_fds-IsAlive : (cs : Connections) → All IsAlive cs → inactive_fds cs ≡ []
unfolding inactive_fds is_alive
inactive_fds-IsAlive [] h = refl
inactive_fds-IsAlive ((fd, some r) ∷ cs) h = inactive_fds-IsAlive cs h.1
inactive_fds-IsAlive ((fd, none) ∷ cs) h = absurd (ground arith)

append_to-twice :
    (a b : List ℕ) (r : Option Replica) → append_to b (append_to a r) ≡ append_to (a ++ b) r
unfolding append_to
append_to-twice a b none = refl
append_to-twice a b (some r) =
    ap (λ t. some (record r { write_buffer = t })) (append_assoc r.write_buffer a b)

send_all-twice :
    (a b : List ℕ) (cs : Connections) → send_all b (send_all a cs) ≡ send_all (a ++ b) cs
unfolding send_all
send_all-twice a b [] = refl
send_all-twice a b ((fd, r) ∷ cs) =
    ap (λ x. (fd, x) ∷ send_all b (send_all a cs)) (append_to-twice a b r)
    ∙ ap (λ l. (fd, append_to (a ++ b) r) ∷ l) (send_all-twice a b cs)

send_all-nothing : (cs : Connections) → send_all [] cs ≡ cs
unfolding send_all append_to
send_all-nothing [] = refl
send_all-nothing ((fd, none) ∷ cs) = ap (λ l. (fd, none) ∷ l) (send_all-nothing cs)
send_all-nothing ((fd, some r) ∷ cs) =
    ap (λ t. (fd, some (record r { write_buffer = t })) ∷ send_all [] cs)
      (append-nil r.write_buffer)
    ∙ ap (λ l. (fd, some r) ∷ l) (send_all-nothing cs)

module _ {D : Type 0} ⦃f : Doubles D⦄ where
  -- The commands that are executed one after the other, with the bytes that they took.
  unfoldable pub propagate_all : List (Command D × ℕ) → ReplicationManager → ReplicationManager
  propagate_all [] m = m
  propagate_all (c ∷ cs) m = propagate_all cs (handle_propagate (some c) m).1

  unfoldable pub writes : List (Command D × ℕ) → List (Command D)
  writes [] = []
  writes ((command, bytes) ∷ cs) =
      let rest = writes cs in if is_write_command command then command ∷ rest else rest

  unfoldable pub write_bytes : List (Command D × ℕ) → ℕ
  write_bytes [] = 0
  write_bytes ((command, bytes) ∷ cs) =
      let rest = write_bytes cs in if is_write_command command then bytes + rest else rest

  propagate_to-IsAlive :
      (command : Command D) (bytes : ℕ) (c : ℕ × Option Replica) (cs : Connections)
      (m : ReplicationManager)
      → m.slave_connections ≡ c ∷ cs
      → All IsAlive (c ∷ cs)
      → (handle_propagate (some (command, bytes)) m).1 ≡ (
          if is_write_command command
          then record m {
            slave_connections = send_all (to_resp command) (c ∷ cs);
            offset = (m.offset + bytes) % 2 ^ 64;
          }
          else m)
  unfolding handle_propagate propagate_to propagate_write remove_all
  propagate_to-IsAlive command bytes c cs m e h =
      ap (λ l. (propagate_to l (some (command, bytes)) m).1) e
      ∙ elim (Bool-cases (is_write_command command)) [
        | inr w ↦ rw w refl
        | inl w ↦ rw w (
            ap
              (λ l. record m {
                slave_connections = remove_all (inactive_fds l) (send_all (to_resp command) l);
                offset = (m.offset + bytes) % 2 ^ 64;
              })
              e
            ∙ ap
                (λ fds. record m {
                  slave_connections = remove_all fds (send_all (to_resp command) (c ∷ cs));
                  offset = (m.offset + bytes) % 2 ^ 64;
                })
                (inactive_fds-IsAlive (c ∷ cs) h))
      ]

  propagated-one :
      (command : Command D) (bytes : ℕ) (c : ℕ × Option Replica) (cs : Connections)
      (m : ReplicationManager)
      → m.slave_connections ≡ c ∷ cs
      → All IsAlive (c ∷ cs)
      → m.offset + write_bytes ((command, bytes) ∷ []) < 2 ^ 64
      → let m1 = (handle_propagate (some (command, bytes)) m).1 in
        (m1.slave_connections ≡ send_all (printed (writes ((command, bytes) ∷ []))) (c ∷ cs))
        × (m1.offset ≡ m.offset + write_bytes ((command, bytes) ∷ []))
  unfolding writes write_bytes printed
  propagated-one command bytes c cs m e h small = elim (Bool-cases (is_write_command command)) [
    | inl w ↦
        rw (propagate_to-IsAlive command bytes c cs m e h, w)
          (
            ap (λ t. send_all t (c ∷ cs)) (sym (append-nil (to_resp command))),
            omega (arith, rw w at small),
          )
    | inr w ↦
        rw (propagate_to-IsAlive command bytes c cs m e h, w)
          (e ∙ sym (send_all-nothing (c ∷ cs)), omega arith)
  ]

  writes-split :
      (c : Command D × ℕ) (l : List (Command D × ℕ))
      → (printed (writes (c ∷ l)) ≡ printed (writes (c ∷ [])) ++ printed (writes l))
        × (write_bytes (c ∷ l) ≡ write_bytes (c ∷ []) + write_bytes l)
  unfolding writes write_bytes printed
  writes-split (command, bytes) l = elim (Bool-cases (is_write_command command)) [
    | inl w ↦
        rw w (sym (ap (λ t. t ++ printed (writes l)) (append-nil (to_resp command))), omega arith)
    | inr w ↦ rw w (refl, omega arith)
  ]

  -- While every replica's client is there, the commands that the master executes reach each replica
  -- as exactly the printed forms of the writing ones among them, in their order, behind what its
  -- buffer held; and the master's offset grows by exactly the bytes that those took in their
  -- clients' buffers, as long as it stays below 2 ^ 64.
  pub propagate_all-send_all :
      (l : List (Command D × ℕ)) (fd : ℕ) (r : Replica) (cs : Connections) (m : ReplicationManager)
      → m.slave_connections ≡ (fd, some r) ∷ cs
      → All IsAlive cs
      → m.offset + write_bytes l < 2 ^ 64
      → ((propagate_all l m).slave_connections ≡ send_all (printed (writes l)) ((fd, some r) ∷ cs))
        × ((propagate_all l m).offset ≡ m.offset + write_bytes l)
  unfolding propagate_all writes write_bytes printed is_alive send_all append_to
  propagate_all-send_all [] fd r cs m e h small =
      (e ∙ sym (send_all-nothing ((fd, some r) ∷ cs)), omega arith)
  propagate_all-send_all ((command, bytes) ∷ l) fd r cs m e h small =
      let c : Command D × ℕ = (command, bytes) in
      let bytes1 = printed (writes (c ∷ [])) in
      let m1 = (handle_propagate (some c) m).1 in
      let (text, size) = writes-split c l in
      let (sent, count) =
        propagated-one command bytes (fd, some r) cs m e (refl, h) (omega arith) in
      let (sent_rest, count_rest) =
        propagate_all-send_all l fd (record r { write_buffer = r.write_buffer ++ bytes1 })
          (send_all bytes1 cs) m1 sent (IsAlive-send_all bytes1 cs h) (omega arith) in
      (
        sent_rest
            ∙ send_all-twice bytes1 (printed (writes l)) ((fd, some r) ∷ cs)
            ∙ ap (λ t. send_all t ((fd, some r) ∷ cs)) (sym text),
        omega arith,
      )
