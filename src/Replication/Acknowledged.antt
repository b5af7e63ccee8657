-- ===== src/Replication/Acknowledged.antt =====
-- How many replicas have acknowledged an offset, and the clients of WAIT that this leaves waiting.
use carrotdb.Base.{
  ℕ, suc, ◌<◌, ◌≤◌, ◌≡◌, refl, ap, false, List, [], ◌∷◌, none, some, All, arith, ◌==◌, leb,
  if◌then◌else◌, Bool-cases, inl, inr,
}
use carrotdb.Base.Int.{ℤ, leb_ℤ}
use carrotdb.Replication.Master.{
  Replica, BlockedWaitClient, Connections, remove_slave_connection, add_slave_connection, append_to,
  send_all, remove_all, has_acked, acked_replicas, Answers, check_client,
  check_blocked_wait_clients, is_expired, expire_client, check_and_expire_blocked_wait_clients,
}

module _ (cs : Connections) where
  -- A client that is not answered yet, because too few replicas are as far as it needs.
  unfoldable pub IsWaiting : BlockedWaitClient → Type 0
  IsWaiting b = acked_replicas b.master_offset cs < b.num_replicas_needed

  pub check_client-IsWaiting :
      (b : BlockedWaitClient) (p : List BlockedWaitClient × Answers)
      → All IsWaiting p.0
      → All IsWaiting (check_client cs b p).0
  unfolding check_client IsWaiting
  check_client-IsWaiting b (left, a) h = elim (Bool-cases b.client) [
    | inr e ↦ rw e h
    | inl e ↦
        rw e (elim (Bool-cases (leb b.num_replicas_needed (acked_replicas b.master_offset cs))) [
          | inl k ↦ rw k h
          | inr k ↦ rw k (ground arith, h)
        ])
  ]

  pub check_blocked_wait_clients-IsWaiting :
      (bs : List BlockedWaitClient) → All IsWaiting (check_blocked_wait_clients cs bs).0
  unfolding check_blocked_wait_clients
  check_blocked_wait_clients-IsWaiting [] = tt
  check_blocked_wait_clients-IsWaiting (b ∷ bs) =
      check_client-IsWaiting b (check_blocked_wait_clients cs bs)
        (check_blocked_wait_clients-IsWaiting bs)

  pub expire_client-All :
      (P : BlockedWaitClient → Type 0) (now : ℕ) (b : BlockedWaitClient)
      (p : List BlockedWaitClient × List (ℕ × List ℕ))
      → P b
      → All P p.0
      → All P (expire_client now cs b p).0
  unfolding expire_client
  expire_client-All P now b (left, replies) k h = elim (Bool-cases (is_expired now b.timeout_at)) [
    | inr e ↦ rw e (k, h)
    | inl e ↦ rw e (elim (Bool-cases b.client) [ inl c ↦ rw c h | inr c ↦ rw c h ])
  ]

  pub expire-All :
      (P : BlockedWaitClient → Type 0) (now : ℕ) (bs : List BlockedWaitClient)
      → All P bs
      → All P (check_and_expire_blocked_wait_clients now cs bs).0
  unfolding check_and_expire_blocked_wait_clients
  expire-All P now [] h = h
  expire-All P now (b ∷ bs) h =
      expire_client-All P now b (check_and_expire_blocked_wait_clients now cs bs) h.0
        (expire-All P now bs h.1)

pub check_client-All :
    (P : BlockedWaitClient → Type 0) (cs : Connections) (b : BlockedWaitClient)
    (p : List BlockedWaitClient × Answers)
    → P b
    → All P p.0
    → All P (check_client cs b p).0
unfolding check_client
check_client-All P cs b (left, a) k h = elim (Bool-cases b.client) [
  | inr e ↦ simp e h
  | inl e ↦
      simp e (elim (Bool-cases (leb b.num_replicas_needed (acked_replicas b.master_offset cs))) [
        | inl l ↦ simp l h
        | inr l ↦ simp l (k, h)
      ])
]

pub check-All :
    (P : BlockedWaitClient → Type 0) (cs : Connections) (bs : List BlockedWaitClient)
    → All P bs
    → All P (check_blocked_wait_clients cs bs).0
unfolding check_blocked_wait_clients
check-All P cs [] h = h
check-All P cs (b ∷ bs) h =
    check_client-All P cs b (check_blocked_wait_clients cs bs) h.0 (check-All P cs bs h.1)

-- Bytes that are sent change no offset.
pub acked_replicas-send_all :
    (bytes : List ℕ) (offset : ℤ) (cs : Connections)
    → acked_replicas offset (send_all bytes cs) ≡ acked_replicas offset cs
unfolding acked_replicas send_all has_acked append_to
acked_replicas-send_all bytes offset [] = refl
acked_replicas-send_all bytes offset ((fd, none) ∷ cs) = acked_replicas-send_all bytes offset cs
acked_replicas-send_all bytes offset ((fd, some r) ∷ cs) =
    ap (λ n. if leb_ℤ offset r.replica_offset then suc n else n)
      (acked_replicas-send_all bytes offset cs)

-- A connection less makes no more acknowledgements.
pub acked_replicas-remove :
    (fd : ℕ) (offset : ℤ) (cs : Connections)
    → acked_replicas offset (remove_slave_connection fd cs) ≤ acked_replicas offset cs
unfolding acked_replicas remove_slave_connection
acked_replicas-remove fd offset [] = omega arith
acked_replicas-remove fd offset (c ∷ cs) =
    let rest = acked_replicas-remove fd offset cs in
    elim (Bool-cases (c.0 == fd)) [ inl e ↦ rw e (ground arith) | inr e ↦ rw e (ground arith) ]

pub acked_replicas-remove_all :
    (fds : List ℕ) (offset : ℤ) (cs : Connections)
    → acked_replicas offset (remove_all fds cs) ≤ acked_replicas offset cs
unfolding remove_all
acked_replicas-remove_all [] offset cs = omega arith
acked_replicas-remove_all (fd ∷ fds) offset cs = omega (
  arith,
  acked_replicas-remove_all fds offset (remove_slave_connection fd cs),
  acked_replicas-remove fd offset cs,
)

-- A replica that has acknowledged nothing of it adds nothing to an offset's count.
pub acked_replicas-add :
    (fd : ℕ) (r : Replica) (offset : ℤ) (cs : Connections)
    → leb_ℤ offset r.replica_offset ≡ false
    → acked_replicas offset (add_slave_connection fd r cs) ≤ acked_replicas offset cs
unfolding acked_replicas add_slave_connection has_acked
acked_replicas-add fd r offset [] h = rw h (omega arith)
acked_replicas-add fd r offset (c ∷ cs) h =
    let rest = acked_replicas-add fd r offset cs h in
    elim (Bool-cases (c.0 == fd)) [
      | inl e ↦ rw e (rw h (ground arith))
      | inr e ↦ rw e (ground arith)
    ]
