-- ===== src/Transactions/Queue.antt =====
-- The commands that a transaction queues, and what the turn of each does at EXEC.
use carrotdb.Base.{
  ℕ, suc, ◌≡◌, refl, Bool, true, false, List, [], ◌∷◌, ◌++◌, Option, none, some, length,
}
use carrotdb.Base.Int.{ℤ}
use carrotdb.Resp.Encode.{encode_simple_string, encode_array_header}
use carrotdb.Commands.Names.{Text}
use carrotdb.Commands.Command.{
  Command, exec_command, set_command, get_command, type_command, incr_command, rpush_command,
  lpush_command, lrange_command, llen_command, lpop_command, xadd_command, xrange_command,
  zadd_command, zrank_command, zrange_command, zcard_command, zscore_command, zrem_command,
  geo_pos_command, geo_dist_command,
}
use carrotdb.Transactions.{
  queued_word, encode_error, err_word, World, Handlers, watch_key, key_of, text_of, checked,
  is_zadd, is_zrank, is_zrange, is_zcard, is_zscore, is_zrem, is_geo_pos, is_geo_dist, is_exec,
  is_discard, is_whoami, answer_client, fail, took, call_other, call, queue_command, execute,
  invalid_command_type,
}

-- The commands on strings, lists and streams that do not block.
pub data ReadsOwn {D : Type 0} : Command D → Type 0 where
  a_set : (key value : Text) (ex px : Option ℕ) → ReadsOwn (set_command key value ex px)
  a_get : (key : Text) → ReadsOwn (get_command key)
  a_type : (key : Text) → ReadsOwn (type_command key)
  a_incr : (key : Text) → ReadsOwn (incr_command key)
  a_rpush : (key : Text) (values : List Text) → ReadsOwn (rpush_command key values)
  a_lpush : (key : Text) (values : List Text) → ReadsOwn (lpush_command key values)
  a_lrange : (key : Text) (start stop : ℤ) → ReadsOwn (lrange_command key start stop)
  a_llen : (key : Text) → ReadsOwn (llen_command key)
  a_lpop : (key : Text) (count : Option ℕ) → ReadsOwn (lpop_command key count)
  a_xadd :
      (key stream_id : Text) (field_values : List (Text × Text))
      → ReadsOwn (xadd_command key stream_id field_values)
  a_xrange : (key start end : Text) → ReadsOwn (xrange_command key start end)

-- The commands whose handlers look at the context's command.
pub data ReadsContext {D : Type 0} : Command D → Type 0 where
  a_zadd :
      (key : Text) (score_members : List (D × Text)) → ReadsContext (zadd_command key score_members)
  a_zrank : (key member : Text) → ReadsContext (zrank_command key member)
  a_zrange : (key : Text) (start stop : ℤ) → ReadsContext (zrange_command key start stop)
  a_zcard : (key : Text) → ReadsContext (zcard_command key)
  a_zscore : (key member : Text) → ReadsContext (zscore_command key member)
  a_zrem : (key : Text) (members : List Text) → ReadsContext (zrem_command key members)
  a_geo_pos : (key : Text) (members : List Text) → ReadsContext (geo_pos_command key members)
  a_geo_dist : (key member1 member2 : Text) → ReadsContext (geo_dist_command key member1 member2)

-- A client in a transaction, with its queue.
abbrev pub in_multi :
    {D : Type 0} {S : Type 0} (wb : List ℕ) (dirty logged_in : Bool) (fd : ℕ) (q : List (Command D))
    (watching : List (Text × List ℕ)) (db : S)
    → World D S
in_multi wb dirty logged_in fd q watching db = record {
  client = record {
    write_buffer = wb;
    multi = true;
    dirty = dirty;
    pub_sub = false;
    queued_commands = q;
    is_authenticated = logged_in;
    fd = fd;
  };
  watching_keys = watching;
  db = db;
}

-- A client that is in no transaction and listens to no channel.
abbrev pub idle :
    {D : Type 0} {S : Type 0} (wb : List ℕ) (dirty logged_in : Bool) (fd : ℕ)
    (watching : List (Text × List ℕ)) (db : S)
    → World D S
idle wb dirty logged_in fd watching db = record {
  client = record {
    write_buffer = wb;
    multi = false;
    dirty = dirty;
    pub_sub = false;
    queued_commands = [];
    is_authenticated = logged_in;
    fd = fd;
  };
  watching_keys = watching;
  db = db;
}

-- Commands one after the other, each on what the one before it left, and their answers in order.
unfoldable pub run_list :
    {D : Type 0} {S : Type 0} → (Command D → S → S × Text) → List (Command D) → S → S × Text
run_list outcome [] db = (db, [])
run_list outcome (c ∷ cs) db =
    let first = outcome c db in
    let rest = run_list outcome cs first.0 in (rest.0, first.1 ++ rest.1)

unfoldable pub watch_all :
    {D : Type 0} → ℕ → List (Command D) → List (Text × List ℕ) → List (Text × List ℕ)
watch_all fd [] watching = watching
watch_all fd (c ∷ cs) watching = watch_all fd cs (watch_key (key_of c) fd watching)

-- One QUEUED for each command.
unfoldable pub queued_replies : {D : Type 0} → List (Command D) → Text
queued_replies [] = []
queued_replies (c ∷ cs) = encode_simple_string [] queued_word ++ queued_replies cs

-- OK, QUEUED for each command, and the array of the answers.
unfoldable pub transaction_replies : {D : Type 0} → List (Command D) → Text → Text
transaction_replies cs answers =
    encode_simple_string [] (b'O' ∷ b'K' ∷ [])
    ++ (queued_replies cs ++ (encode_array_header [] (length cs) ++ answers))

module _ {D : Type 0} {S : Type 0} (h : Handlers D S) where
  -- The requests of one client in their order.
  unfoldable pub execute_all : ℕ → List (Command D) → World D S → Option (World D S)
  execute_all fuel [] w = some w
  execute_all fuel (c ∷ cs) w = elim (execute h fuel (some c) w) [
    | none ↦ none
    | some w1 ↦ execute_all fuel cs w1
  ]

  unfoldable pub refuses : Command D → S → S × Text
  refuses c db = (db, encode_error [] (text_of invalid_command_type) err_word)

  -- A command that a transaction queues, and what its turn does in the end.
  unfoldable pub IsQueued : (Command D → S → S × Text) → Command D → Type 0
  IsQueued outcome c =
      ((fuel : ℕ) (wb : List ℕ) (dirty logged_in : Bool) (fd : ℕ) (q : List (Command D))
          (watching : List (Text × List ℕ)) (db : S)
        → execute h fuel (some c) (in_multi wb dirty logged_in fd q watching db)
          ≡ some (queue_command h c (in_multi wb dirty logged_in fd q watching db)))
      × ((fuel : ℕ) (w : World D S)
          → call h (suc fuel) exec_command c w ≡ some (took h (outcome c w.db) w))

  pub ReadsOwn-IsQueued : (c : Command D) → ReadsOwn c → IsQueued (h.run exec_command) c
  unfolding IsQueued execute is_whoami is_exec is_discard call call_other
  ReadsOwn-IsQueued _ (a_set key value ex px) =
      (λ fuel wb dirty logged_in fd q watching db. refl, λ fuel w. refl)
  ReadsOwn-IsQueued _ (a_get key) =
      (λ fuel wb dirty logged_in fd q watching db. refl, λ fuel w. refl)
  ReadsOwn-IsQueued _ (a_type key) =
      (λ fuel wb dirty logged_in fd q watching db. refl, λ fuel w. refl)
  ReadsOwn-IsQueued _ (a_incr key) =
      (λ fuel wb dirty logged_in fd q watching db. refl, λ fuel w. refl)
  ReadsOwn-IsQueued _ (a_rpush key values) =
      (λ fuel wb dirty logged_in fd q watching db. refl, λ fuel w. refl)
  ReadsOwn-IsQueued _ (a_lpush key values) =
      (λ fuel wb dirty logged_in fd q watching db. refl, λ fuel w. refl)
  ReadsOwn-IsQueued _ (a_lrange key start stop) =
      (λ fuel wb dirty logged_in fd q watching db. refl, λ fuel w. refl)
  ReadsOwn-IsQueued _ (a_llen key) =
      (λ fuel wb dirty logged_in fd q watching db. refl, λ fuel w. refl)
  ReadsOwn-IsQueued _ (a_lpop key count) =
      (λ fuel wb dirty logged_in fd q watching db. refl, λ fuel w. refl)
  ReadsOwn-IsQueued _ (a_xadd key stream_id field_values) =
      (λ fuel wb dirty logged_in fd q watching db. refl, λ fuel w. refl)
  ReadsOwn-IsQueued _ (a_xrange key start end) =
      (λ fuel wb dirty logged_in fd q watching db. refl, λ fuel w. refl)

  pub ReadsContext-IsQueued : (c : Command D) → ReadsContext c → IsQueued refuses c
  unfolding IsQueued execute is_whoami is_exec is_discard call call_other checked fail took
      answer_client refuses is_zadd is_zrank is_zrange is_zcard is_zscore is_zrem is_geo_pos
      is_geo_dist
  ReadsContext-IsQueued _ (a_zadd key score_members) =
      (λ fuel wb dirty logged_in fd q watching db. refl, λ fuel w. refl)
  ReadsContext-IsQueued _ (a_zrank key member) =
      (λ fuel wb dirty logged_in fd q watching db. refl, λ fuel w. refl)
  ReadsContext-IsQueued _ (a_zrange key start stop) =
      (λ fuel wb dirty logged_in fd q watching db. refl, λ fuel w. refl)
  ReadsContext-IsQueued _ (a_zcard key) =
      (λ fuel wb dirty logged_in fd q watching db. refl, λ fuel w. refl)
  ReadsContext-IsQueued _ (a_zscore key member) =
      (λ fuel wb dirty logged_in fd q watching db. refl, λ fuel w. refl)
  ReadsContext-IsQueued _ (a_zrem key members) =
      (λ fuel wb dirty logged_in fd q watching db. refl, λ fuel w. refl)
  ReadsContext-IsQueued _ (a_geo_pos key members) =
      (λ fuel wb dirty logged_in fd q watching db. refl, λ fuel w. refl)
  ReadsContext-IsQueued _ (a_geo_dist key member1 member2) =
      (λ fuel wb dirty logged_in fd q watching db. refl, λ fuel w. refl)
