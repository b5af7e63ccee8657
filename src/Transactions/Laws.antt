-- ===== src/Transactions/Laws.antt =====
-- A transaction runs its commands at EXEC, one after the other, and the sorted-set commands in it fail.
use carrotdb.Base.{
  ℕ, suc, ◌≡◌, refl, sym, ap, ◌∙◌, Bool, false, List, [], ◌∷◌, ◌++◌, append_assoc, append-nil,
  Option, none, some, length, All,
}
use carrotdb.Resp.Encode.{encode_simple_string, encode_array_header}
use carrotdb.Commands.Names.{Text}
use carrotdb.Commands.Command.{Command, multi_command, exec_command}
use carrotdb.Transactions.{
  queued_word, World, Handlers, watch_key, key_of, is_exec, is_discard, is_whoami, reset_flags,
  reply, answer_client, took, handle_multi, clear_queue, exec_loop, end_exec, handle_exec, call,
  queue_command, execute_now, execute,
}
use carrotdb.Transactions.Queue.{
  ReadsOwn, ReadsContext, in_multi, idle, run_list, watch_all, queued_replies, transaction_replies,
  execute_all, refuses, IsQueued, ReadsOwn-IsQueued, ReadsContext-IsQueued,
}

module _ {D : Type 0} {S : Type 0} (h : Handlers D S) where
  module _ (outcome : Command D → S → S × Text) where
    execute_all-queued :
        (cs ds : List (Command D)) (fuel : ℕ) (wb : List ℕ) (dirty logged_in : Bool) (fd : ℕ)
        (q : List (Command D)) (watching : List (Text × List ℕ)) (db : S)
        → All (IsQueued h outcome) cs
        → execute_all h fuel (cs ++ ds) (in_multi wb dirty logged_in fd q watching db)
          ≡ execute_all h fuel ds (
              in_multi
                (wb ++ queued_replies cs)
                dirty
                logged_in
                fd
                (q ++ cs)
                (watch_all fd cs watching)
                db)
    unfolding execute_all queued_replies watch_all IsQueued queue_command answer_client reply
    execute_all-queued [] ds fuel wb dirty logged_in fd q watching db all =
        ap (λ b. execute_all h fuel ds (in_multi b dirty logged_in fd q watching db))
          (sym (append-nil wb))
        ∙ ap (λ l. execute_all h fuel ds (in_multi (wb ++ []) dirty logged_in fd l watching db))
            (sym (append-nil q))
    execute_all-queued (c ∷ cs) ds fuel wb dirty logged_in fd q watching db (one, all) =
        let ok_text = encode_simple_string [] queued_word in
        ap (λ o. elim o [ none ↦ none | some w1 ↦ execute_all h fuel (cs ++ ds) w1 ])
          (one.0 fuel wb dirty logged_in fd q watching db)
        ∙ execute_all-queued cs ds fuel (wb ++ ok_text) dirty logged_in fd (q ++ (c ∷ []))
            (watch_key (key_of c) fd watching) db all
        ∙ ap
            (λ b. execute_all h fuel ds (
              in_multi b dirty logged_in fd ((q ++ (c ∷ [])) ++ cs)
                (watch_all fd cs (watch_key (key_of c) fd watching)) db))
            (append_assoc wb ok_text (queued_replies cs))
        ∙ ap
            (λ l. execute_all h fuel ds (
              in_multi (wb ++ (ok_text ++ queued_replies cs)) dirty logged_in fd l
                (watch_all fd cs (watch_key (key_of c) fd watching)) db))
            (append_assoc q (c ∷ []) cs)

    exec_loop-queued :
        (cs : List (Command D)) (fuel : ℕ) (w : World D S)
        → All (IsQueued h outcome) cs
        → exec_loop h (call h (suc fuel) exec_command) cs w
          ≡ some (took h (run_list outcome cs w.db) w)
    unfolding exec_loop run_list took reply IsQueued
    exec_loop-queued [] fuel w all =
        ap (λ b. some (record w { client = record w.client { write_buffer = b } }))
          (sym (append-nil w.client.write_buffer))
    exec_loop-queued (c ∷ cs) fuel w (one, all) =
        let first = outcome c w.db in
        ap
          (λ o. elim o [
            | none ↦ none
            | some w1 ↦ exec_loop h (call h (suc fuel) exec_command) cs w1
          ])
          (one.1 fuel w)
        ∙ exec_loop-queued cs fuel (took h first w) all
        ∙ ap
            (λ b. some (record w {
              client = record w.client { write_buffer = b };
              db = (run_list outcome cs first.0).0;
            }))
            (append_assoc w.client.write_buffer first.1 (run_list outcome cs first.0).1)

    -- The run of a whole transaction.
    execute_all-transaction :
        (cs : List (Command D)) (fuel : ℕ) (wb : List ℕ) (dirty logged_in : Bool) (fd : ℕ)
        (watching : List (Text × List ℕ)) (db : S)
        → All (IsQueued h outcome) cs
        → execute_all h
            (suc (suc fuel))
            (multi_command ∷ (cs ++ (exec_command ∷ [])))
            (idle wb dirty logged_in fd watching db)
          ≡ some (
              idle
                (wb ++ transaction_replies cs (run_list outcome cs db).1)
                false
                logged_in
                fd
                (watch_all fd cs watching)
                (run_list outcome cs db).0)
    unfolding execute_all execute execute_now is_whoami is_exec is_discard call handle_multi
        handle_exec answer_client reply took end_exec clear_queue reset_flags transaction_replies
    execute_all-transaction cs fuel wb dirty logged_in fd watching db all =
        let ok_text = encode_simple_string [] (b'O' ∷ b'K' ∷ []) in
        let header = encode_array_header [] (length cs) in
        let queued = queued_replies cs in
        let answers = (run_list outcome cs db).1 in
        let finish : Option (World D S) → Option (World D S) =
          λ o. elim (end_exec h o) [ none ↦ none | some w1 ↦ some w1 ] in
        execute_all-queued cs (exec_command ∷ []) (suc (suc fuel)) (wb ++ ok_text) dirty logged_in
          fd [] watching db all
        ∙ ap finish (
            exec_loop-queued cs fuel
              (in_multi (((wb ++ ok_text) ++ queued) ++ header) dirty logged_in fd cs
                (watch_all fd cs watching) db)
              all)
        ∙ ap
            (λ b.
              some
                (idle b false logged_in fd (watch_all fd cs watching) (run_list outcome cs db).0))
            (append_assoc ((wb ++ ok_text) ++ queued) header answers
              ∙ append_assoc (wb ++ ok_text) queued (header ++ answers)
              ∙ append_assoc wb ok_text (queued ++ (header ++ answers)))

  All-mono :
      (P : Command D → Type 0) (outcome : Command D → S → S × Text) (cs : List (Command D))
      → ((c : Command D) → P c → IsQueued h outcome c)
      → All P cs
      → All (IsQueued h outcome) cs
  All-mono P outcome [] f all = all
  All-mono P outcome (c ∷ cs) f all = (f c all.0, All-mono P outcome cs f all.1)

  -- A client that is in no transaction and listens to no channel sends MULTI, then any commands of
  -- ReadsOwn (on strings, lists and streams, none that blocks), and then EXEC. It gets OK, QUEUED
  -- for each, and the array of their answers in order; the database is what the handlers leave that
  -- run one after the other at EXEC; each key is watched once for each command on it; and the
  -- client is in no transaction again, with an empty queue and no flag set.
  pub execute_all-ReadsOwn :
      (cs : List (Command D)) (fuel : ℕ) (wb : List ℕ) (dirty logged_in : Bool) (fd : ℕ)
      (watching : List (Text × List ℕ)) (db : S)
      → All ReadsOwn cs
      → execute_all h
          (suc (suc fuel))
          (multi_command ∷ (cs ++ (exec_command ∷ [])))
          (idle wb dirty logged_in fd watching db)
        ≡ some (
            idle
              (wb ++ transaction_replies cs (run_list (h.run exec_command) cs db).1)
              false
              logged_in
              fd
              (watch_all fd cs watching)
              (run_list (h.run exec_command) cs db).0)
  execute_all-ReadsOwn cs fuel wb dirty logged_in fd watching db all =
      execute_all-transaction (h.run exec_command) cs fuel wb dirty logged_in fd watching db
        (All-mono ReadsOwn (h.run exec_command) cs (ReadsOwn-IsQueued h) all)

  run_list-refuses : (cs : List (Command D)) (db : S) → (run_list (refuses h) cs db).0 ≡ db
  unfolding run_list refuses
  run_list-refuses [] db = refl
  run_list-refuses (c ∷ cs) db = run_list-refuses cs db

  -- A client that is in no transaction and listens to no channel sends MULTI, then any commands of
  -- ReadsContext (ZADD, ZRANK, ZRANGE, ZCARD, ZSCORE, ZREM, GEOPOS and GEODIST), and then EXEC.
  -- Each of them is answered with the error `Invalid command type`, and the database is not
  -- changed.
  pub execute_all-ReadsContext :
      (cs : List (Command D)) (fuel : ℕ) (wb : List ℕ) (dirty logged_in : Bool) (fd : ℕ)
      (watching : List (Text × List ℕ)) (db : S)
      → All ReadsContext cs
      → execute_all h
          (suc (suc fuel))
          (multi_command ∷ (cs ++ (exec_command ∷ [])))
          (idle wb dirty logged_in fd watching db)
        ≡ some (
            idle
              (wb ++ transaction_replies cs (run_list (refuses h) cs db).1)
              false
              logged_in
              fd
              (watch_all fd cs watching)
              db)
  execute_all-ReadsContext cs fuel wb dirty logged_in fd watching db all =
      execute_all-transaction (refuses h) cs fuel wb dirty logged_in fd watching db
        (All-mono ReadsContext (refuses h) cs (ReadsContext-IsQueued h) all)
      ∙ ap
          (λ s. some (
            idle (wb ++ transaction_replies cs (run_list (refuses h) cs db).1) false logged_in fd
              (watch_all fd cs watching) s))
          (run_list-refuses cs db)
