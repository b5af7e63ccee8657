-- ===== src/Transactions/Examples.antt =====
-- The theorems on transactions, on concrete commands.
use carrotdb.Base.{ℕ, ◌≡◌, false, true, List, [], ◌∷◌, ◌++◌, some, none}
use carrotdb.Commands.Names.{Text}
use carrotdb.Commands.Command.{
  Command, multi_command, exec_command, set_command, incr_command, zcard_command,
}
use carrotdb.Transactions.{Handlers}
use carrotdb.Transactions.Queue.{
  a_set, a_incr, a_zcard, idle, run_list, watch_all, transaction_replies, execute_all, refuses,
}
use carrotdb.Transactions.Laws.{execute_all-ReadsOwn, execute_all-ReadsContext}

abbrev key_text : Text
key_text = b'k' ∷ []

-- A database that keeps the commands that it ran, and answers with a point.
abbrev logging : Handlers ℕ (List (Command ℕ))
logging = record {
  run = λ context command db. (db ++ (command ∷ []), b'.' ∷ []);
  run_pub_sub = λ command db. (db, []);
  run_with_config = λ command logged_in db. (db, logged_in, []);
}

abbrev two_writes : List (Command ℕ)
two_writes = set_command key_text key_text none none ∷ incr_command key_text ∷ []

execute_all-ReadsOwn_example :
    execute_all logging 2
      (multi_command ∷ (two_writes ++ (exec_command ∷ [])))
      (idle [] true true 7 [] [])
    ≡ some (
        idle
          ([]
            ++ transaction_replies two_writes (run_list (logging.run exec_command) two_writes []).1)
          false
          true
          7
          (watch_all 7 two_writes [])
          (run_list (logging.run exec_command) two_writes []).0)
execute_all-ReadsOwn_example =
    execute_all-ReadsOwn logging two_writes 0 [] true true 7 [] []
      (a_set key_text key_text none none, (a_incr key_text, tt))

abbrev one_count : List (Command ℕ)
one_count = zcard_command key_text ∷ []

execute_all-ReadsContext_example :
    execute_all logging 2
      (multi_command ∷ (one_count ++ (exec_command ∷ [])))
      (idle [] false true 7 [] [])
    ≡ some (
        idle
          ([] ++ transaction_replies one_count (run_list (refuses logging) one_count []).1)
          false
          true
          7
          (watch_all 7 one_count [])
          [])
execute_all-ReadsContext_example =
    execute_all-ReadsContext logging one_count 0 [] false true 7 [] [] (a_zcard key_text, tt)
