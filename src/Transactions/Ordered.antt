-- ===== src/Transactions/Ordered.antt =====
-- What the handlers do to the queue of a client that is in no transaction.
use carrotdb.Base.{
  Bool, ◌∷◌, List, All, ℕ, suc, ◌≡◌, refl, true, false, [], Option, none, some, Bool-cases, inl,
  inr, arith,
}
use carrotdb.Commands.Command.{
  Command, unknow_command, ping_command, echo_command, set_command, get_command, type_command,
  incr_command, rpush_command, lpush_command, lrange_command, llen_command, lpop_command,
  blpop_command, xadd_command, xrange_command, xread_command, multi_command, exec_command,
  discard_command, info_command, repl_conf_command, psync_command, wait_command, get_config_command,
  keys_command, subscribe_command, publish_command, un_subscribe_command, zadd_command,
  zrank_command, zrange_command, zcard_command, zscore_command, zrem_command, geo_add_command,
  geo_pos_command, geo_dist_command, geo_search_command, acl_whoami_command, acl_get_user_command,
  acl_set_user_command, auth_command,
}
use carrotdb.Transactions.{
  World, Handlers, checked, handle_keys, is_keys, is_zadd, is_zrank, is_zrange, is_zcard, is_zscore,
  is_zrem, is_geo_add, is_geo_pos, is_geo_dist, is_geo_search, is_exec, reset_flags, reply,
  answer_client, fail, took, handle_ping, handle_echo, handle_multi, clear_queue, handle_discard,
  end_exec, exec_loop, handle_exec, call_other, call,
}

-- The commands but PUBLISH, SUBSCRIBE and ACL GETUSER, whose handlers cast the context's command.
unfoldable pub is_defined : {D : Type 0} → Command D → Bool
is_defined (publish_command channel_name message) = false
is_defined (subscribe_command channel_name) = false
is_defined (acl_get_user_command username) = false
is_defined _ = true

-- A command that EXEC can run.
abbrev pub IsSafe : {D : Type 0} → Command D → Type 0
IsSafe c = (is_exec c ≡ false) × (is_defined c ≡ true)

-- No transaction, no queue; and only what EXEC can run is queued.
unfoldable pub IsOrdered : {D : Type 0} {S : Type 0} → World D S → Type 0
IsOrdered w =
    (w.client.multi ≡ false → w.client.queued_commands ≡ []) × All IsSafe w.client.queued_commands

-- There is a result, and it has a property.
unfoldable pub Holds : {W : Type 0} → (W → Type 0) → Option W → Type 0
Holds P none = true ≡ false
Holds P (some w) = P w

module _ {D : Type 0} {S : Type 0} (h : Handlers D S) where
  handle_ping-IsOrdered : (w : World D S) → IsOrdered w → IsOrdered (handle_ping h w)
  unfolding IsOrdered handle_ping answer_client reply
  handle_ping-IsOrdered w o = elim (Bool-cases w.client.pub_sub) [
    | inl e ↦ simp e o
    | inr e ↦ simp e o
  ]

  handle_discard-IsOrdered : (w : World D S) → IsOrdered w → IsOrdered (handle_discard h w)
  unfolding IsOrdered handle_discard fail answer_client reply clear_queue reset_flags
  handle_discard-IsOrdered w o = elim (Bool-cases w.client.multi) [
    | inl e ↦ simp e (λ m. refl, tt)
    | inr e ↦ simp e (λ m. o.0 e, o.1)
  ]

  end_exec-IsOrdered :
      (r : Option (World D S)) → Holds (λ w. Unit {0}) r → Holds IsOrdered (end_exec h r)
  unfolding IsOrdered Holds end_exec clear_queue reset_flags
  end_exec-IsOrdered none returns = returns
  end_exec-IsOrdered (some w) returns = (λ m. refl, tt)

  -- The loop ends where every command but EXEC does.
  exec_loop-returns :
      (call_one : Command D → World D S → Option (World D S))
      → ((c : Command D) (w : World D S) → IsSafe c → Holds (λ w1. Unit {0}) (call_one c w))
      → (cs : List (Command D)) (w : World D S) → All IsSafe cs
      → Holds (λ w1. Unit {0}) (exec_loop h call_one cs w)
  unfolding exec_loop Holds
  exec_loop-returns call_one returns [] w plain = tt
  exec_loop-returns call_one returns (c ∷ cs) w plain =
      and_then (call_one c w) (returns c w plain.0) cs
        (λ w1. exec_loop-returns call_one returns cs w1 plain.1)
    where
      and_then :
          (r : Option (World D S))
          → Holds (λ w1. Unit {0}) r
          → (ds : List (Command D))
          → ((w1 : World D S) → Holds (λ w2. Unit {0}) (exec_loop h call_one ds w1))
          → Holds (λ w2. Unit {0}) (elim r [ none ↦ none | some w1 ↦ exec_loop h call_one ds w1 ])
      and_then none e ds rest = e
      and_then (some w1) e ds rest = rest w1

  handle_exec-IsOrdered :
      (call_one : Command D → World D S → Option (World D S)) (w : World D S)
      → ((c : Command D) (w1 : World D S) → IsSafe c → Holds (λ w2. Unit {0}) (call_one c w1))
      → IsOrdered w
      → Holds IsOrdered (handle_exec h call_one w)
  unfolding IsOrdered Holds handle_exec fail answer_client reply
  handle_exec-IsOrdered call_one w returns o = elim (Bool-cases w.client.multi) [
    | inl e ↦
        simp e
          (end_exec-IsOrdered _ (exec_loop-returns call_one returns w.client.queued_commands _ o.1))
    | inr e ↦ simp e (λ m. o.0 e, o.1)
  ]

  checked-IsOrdered :
      (has_type : Bool) (context : Command D) (w : World D S)
      → IsOrdered w
      → IsOrdered (checked h has_type context w)
  unfolding IsOrdered checked took fail answer_client reply
  checked-IsOrdered true context w o = o
  checked-IsOrdered false context w o = o

  handle_keys-IsOrdered :
      (context : Command D) (w : World D S) → IsOrdered w → IsOrdered (handle_keys h context w)
  unfolding IsOrdered handle_keys took reply
  handle_keys-IsOrdered context w o = elim (Bool-cases (is_keys context)) [
    | inl e ↦ simp e o
    | inr e ↦ simp e o
  ]

  call-returns :
      (fuel : ℕ) (context command : Command D) (w : World D S)
      → IsSafe command
      → Holds (λ w1. Unit {0}) (call h (suc fuel) context command w)
  unfolding Holds call call_other is_exec is_defined
  call-returns fuel context unknow_command w e = tt
  call-returns fuel context ping_command w e = tt
  call-returns fuel context (echo_command x0) w e = tt
  call-returns fuel context (set_command x0 x1 x2 x3) w e = tt
  call-returns fuel context (get_command x0) w e = tt
  call-returns fuel context (type_command x0) w e = tt
  call-returns fuel context (incr_command x0) w e = tt
  call-returns fuel context (rpush_command x0 x1) w e = tt
  call-returns fuel context (lpush_command x0 x1) w e = tt
  call-returns fuel context (lrange_command x0 x1 x2) w e = tt
  call-returns fuel context (llen_command x0) w e = tt
  call-returns fuel context (lpop_command x0 x1) w e = tt
  call-returns fuel context (blpop_command x0 x1) w e = tt
  call-returns fuel context (xadd_command x0 x1 x2) w e = tt
  call-returns fuel context (xrange_command x0 x1 x2) w e = tt
  call-returns fuel context (xread_command x0 x1 x2) w e = tt
  call-returns fuel context multi_command w e = tt
  call-returns fuel context exec_command w e =
      absurd (let clash : true ≡ false = e.0 in ground arith)
  call-returns fuel context discard_command w e = tt
  call-returns fuel context (info_command x0) w e = tt
  call-returns fuel context (repl_conf_command x0 x1 x2 x3) w e = tt
  call-returns fuel context (psync_command x0 x1) w e = tt
  call-returns fuel context (wait_command x0 x1) w e = tt
  call-returns fuel context (get_config_command x0) w e = tt
  call-returns fuel context (keys_command x0) w e = tt
  call-returns fuel context (subscribe_command x0) w e =
      absurd (let clash : false ≡ true = e.1 in ground arith)
  call-returns fuel context (publish_command x0 x1) w e =
      absurd (let clash : false ≡ true = e.1 in ground arith)
  call-returns fuel context (un_subscribe_command x0) w e = tt
  call-returns fuel context (zadd_command x0 x1) w e = tt
  call-returns fuel context (zrank_command x0 x1) w e = tt
  call-returns fuel context (zrange_command x0 x1 x2) w e = tt
  call-returns fuel context (zcard_command x0) w e = tt
  call-returns fuel context (zscore_command x0 x1) w e = tt
  call-returns fuel context (zrem_command x0 x1) w e = tt
  call-returns fuel context (geo_add_command x0 x1 x2 x3 x4 x5) w e = tt
  call-returns fuel context (geo_pos_command x0 x1) w e = tt
  call-returns fuel context (geo_dist_command x0 x1 x2) w e = tt
  call-returns fuel context (geo_search_command x0 x1 x2 x3) w e = tt
  call-returns fuel context acl_whoami_command w e = tt
  call-returns fuel context (acl_get_user_command x0) w e =
      absurd (let clash : false ≡ true = e.1 in ground arith)
  call-returns fuel context (acl_set_user_command x0 x1 x2) w e = tt
  call-returns fuel context (auth_command x0 x1) w e = tt

  pub call-IsOrdered :
      (fuel : ℕ) (context command : Command D) (w : World D S)
      → is_defined command ≡ true
      → IsOrdered w
      → Holds IsOrdered (call h (suc (suc fuel)) context command w)
  unfolding Holds call call_other is_defined IsOrdered handle_multi handle_echo answer_client reply
      took
  call-IsOrdered fuel context unknow_command w d o = handle_ping-IsOrdered w o
  call-IsOrdered fuel context ping_command w d o = handle_ping-IsOrdered w o
  call-IsOrdered fuel context (echo_command x0) w d o = o
  call-IsOrdered fuel context (set_command x0 x1 x2 x3) w d o = o
  call-IsOrdered fuel context (get_command x0) w d o = o
  call-IsOrdered fuel context (type_command x0) w d o = o
  call-IsOrdered fuel context (incr_command x0) w d o = o
  call-IsOrdered fuel context (rpush_command x0 x1) w d o = o
  call-IsOrdered fuel context (lpush_command x0 x1) w d o = o
  call-IsOrdered fuel context (lrange_command x0 x1 x2) w d o = o
  call-IsOrdered fuel context (llen_command x0) w d o = o
  call-IsOrdered fuel context (lpop_command x0 x1) w d o = o
  call-IsOrdered fuel context (blpop_command x0 x1) w d o = o
  call-IsOrdered fuel context (xadd_command x0 x1 x2) w d o = o
  call-IsOrdered fuel context (xrange_command x0 x1 x2) w d o = o
  call-IsOrdered fuel context (xread_command x0 x1 x2) w d o = o
  call-IsOrdered fuel context multi_command w d o =
      (λ e. absurd (let clash : true ≡ false = e in ground arith), o.1)
  call-IsOrdered fuel context exec_command w d o =
      handle_exec-IsOrdered (call h (suc fuel) context) w
        (λ c w1 e. call-returns fuel context c w1 e) o
  call-IsOrdered fuel context discard_command w d o = handle_discard-IsOrdered w o
  call-IsOrdered fuel context (info_command x0) w d o = handle_ping-IsOrdered w o
  call-IsOrdered fuel context (repl_conf_command x0 x1 x2 x3) w d o = handle_ping-IsOrdered w o
  call-IsOrdered fuel context (psync_command x0 x1) w d o = handle_ping-IsOrdered w o
  call-IsOrdered fuel context (wait_command x0 x1) w d o = handle_ping-IsOrdered w o
  call-IsOrdered fuel context (get_config_command x0) w d o = handle_ping-IsOrdered w o
  call-IsOrdered fuel context (keys_command x0) w d o = handle_keys-IsOrdered context w o
  call-IsOrdered fuel context (subscribe_command x0) w d o =
      absurd (let clash : false ≡ true = d in ground arith)
  call-IsOrdered fuel context (publish_command x0 x1) w d o =
      absurd (let clash : false ≡ true = d in ground arith)
  call-IsOrdered fuel context (un_subscribe_command x0) w d o = handle_ping-IsOrdered w o
  call-IsOrdered fuel context (zadd_command x0 x1) w d o =
      checked-IsOrdered (is_zadd context) context w o
  call-IsOrdered fuel context (zrank_command x0 x1) w d o =
      checked-IsOrdered (is_zrank context) context w o
  call-IsOrdered fuel context (zrange_command x0 x1 x2) w d o =
      checked-IsOrdered (is_zrange context) context w o
  call-IsOrdered fuel context (zcard_command x0) w d o =
      checked-IsOrdered (is_zcard context) context w o
  call-IsOrdered fuel context (zscore_command x0 x1) w d o =
      checked-IsOrdered (is_zscore context) context w o
  call-IsOrdered fuel context (zrem_command x0 x1) w d o =
      checked-IsOrdered (is_zrem context) context w o
  call-IsOrdered fuel context (geo_add_command x0 x1 x2 x3 x4 x5) w d o =
      checked-IsOrdered (is_geo_add context) context w o
  call-IsOrdered fuel context (geo_pos_command x0 x1) w d o =
      checked-IsOrdered (is_geo_pos context) context w o
  call-IsOrdered fuel context (geo_dist_command x0 x1 x2) w d o =
      checked-IsOrdered (is_geo_dist context) context w o
  call-IsOrdered fuel context (geo_search_command x0 x1 x2 x3) w d o =
      checked-IsOrdered (is_geo_search context) context w o
  call-IsOrdered fuel context acl_whoami_command w d o = o
  call-IsOrdered fuel context (acl_get_user_command x0) w d o =
      absurd (let clash : false ≡ true = d in ground arith)
  call-IsOrdered fuel context (acl_set_user_command x0 x1 x2) w d o = handle_ping-IsOrdered w o
  call-IsOrdered fuel context (auth_command x0 x1) w d o = handle_ping-IsOrdered w o
