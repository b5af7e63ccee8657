-- ===== src/Replication/Replay.antt =====
-- What a replica does with the commands that its master printed with Command::to_resp.
use carrotdb.Base.{
  Bool, ℕ, zero, suc, ◌+◌, ◌%◌, ◌^◌, ◌<◌, ◌≡◌, refl, ap, ◌∙◌, List, [], ◌∷◌, ◌++◌, true, false,
  Option, none, some, length, length-append, All, arith,
}
use carrotdb.Resp.Encode.{encode_array_header}
use carrotdb.Resp.RoundTrip.{frames-encode}
use carrotdb.Commands.Names.{Text}
use carrotdb.Commands.Doubles.{Doubles}
use carrotdb.Commands.Command.{Command, multi_command}
use carrotdb.Commands.Print.{counted, to_resp}
use carrotdb.Commands.Dispatch.{parse_command}
use carrotdb.Commands.Codec.{IsText}
use carrotdb.Commands.Codec.Words.{
  Carries, to_resp-Carries, ping_text, echo_text, set_text, get_text, type_text, incr_text,
  rpush_text, lpush_text, llen_text, lpop_text, lpop_count_text, xadd_text, xrange_text, multi_text,
  exec_text, discard_text, zrank_text, zcard_text, zscore_text, zrem_text,
}
use carrotdb.Commands.Codec.RoundTrip.{parse_command-to_resp}
use carrotdb.Replication.Slave.{
  SlaveReplicationClient, Turn, stop, next, in_transaction, count_bytes, run_command, run_parsed,
  run_found, process_commands,
}

-- A command whose texts the parser reads whole and whose arguments are counted in an `int`.
abbrev pub Sendable : {D : Type 0} → Command D → Type 0
Sendable cmd =
    (name : Text) × (args : List Text) × Carries cmd name args
    × All IsText (name ∷ args)
    × (length args < 2 ^ 31)

unfoldable pub is_multi : {D : Type 0} → Command D → Bool
is_multi multi_command = true
is_multi _ = false

-- A replica behind a command of which these bytes were read.
abbrev pub ran :
    {D : Type 0} {S : Type 0}
    → (Command D → S → S)
    → Command D
    → ℕ
    → List ℕ
    → SlaveReplicationClient S
    → SlaveReplicationClient S
ran execute cmd bytes rest s = record s {
  bytes_processed = (s.bytes_processed + bytes) % 2 ^ 64;
  db = execute cmd s.db;
  read_buffer = rest;
  write_buffer = [];
}

module _ {D : Type 0} {S : Type 0} (execute : Command D → S → S) where
  run-Carries :
      {cmd : Command D} {name : Text} {args : List Text}
      → Carries cmd name args
      → is_multi cmd ≡ false
      → (bytes : ℕ) (s : SlaveReplicationClient S)
      → run_command execute cmd bytes s ≡ next (ran execute cmd bytes s.read_buffer s)
  unfolding run_command count_bytes is_multi
  run-Carries ping_text plain bytes s = refl
  run-Carries (echo_text message) plain bytes s = refl
  run-Carries (set_text key value ex px h0 h1) plain bytes s = refl
  run-Carries (get_text key) plain bytes s = refl
  run-Carries (type_text key) plain bytes s = refl
  run-Carries (incr_text key) plain bytes s = refl
  run-Carries (rpush_text key values) plain bytes s = refl
  run-Carries (lpush_text key values) plain bytes s = refl
  run-Carries (llen_text key) plain bytes s = refl
  run-Carries (lpop_text key) plain bytes s = refl
  run-Carries (lpop_count_text key count h0) plain bytes s = refl
  run-Carries (xadd_text key stream_id fs) plain bytes s = refl
  run-Carries (xrange_text key start end) plain bytes s = refl
  run-Carries multi_text plain bytes s = absurd (let clash : true ≡ false = plain in ground arith)
  run-Carries exec_text plain bytes s = refl
  run-Carries discard_text plain bytes s = refl
  run-Carries (zrank_text key member) plain bytes s = refl
  run-Carries (zcard_text key) plain bytes s = refl
  run-Carries (zscore_text key member) plain bytes s = refl
  run-Carries (zrem_text key members) plain bytes s = refl

module _ {D : Type 0} ⦃f : Doubles D⦄ where
  -- The commands one behind the other, as they stand in the replica's buffer.
  unfoldable pub printed : List (Command D) → List ℕ
  printed [] = []
  printed (cmd ∷ cmds) = to_resp cmd ++ printed cmds

module _ {D : Type 0} {S : Type 0} ⦃f : Doubles D⦄ (execute : Command D → S → S) where
  unfoldable pub execute_all : List (Command D) → S → S
  execute_all [] db = db
  execute_all (cmd ∷ cmds) db = execute_all cmds (execute cmd db)

  begins :
      {cmd : Command D} {name : Text} {args : List Text} (rest : List ℕ)
      → Carries cmd name args
      → (t : List ℕ) × (to_resp cmd ++ rest ≡ b'*' ∷ t)
  unfolding counted encode_array_header
  begins {name = name} {args = args} rest c = (
    _,
    ap (λ t. t ++ rest)
        (to_resp-Carries c
          ∙ frames-encode (encode_array_header [] (1 + length args)) (name ∷ args)),
  )

  -- The next command in the buffer is executed, and cut out of it.
  process_commands-one :
      (cmd : Command D) (rest : List ℕ) (fuel : ℕ) (s : SlaveReplicationClient S)
      → Sendable cmd
      → is_multi cmd ≡ false
      → s.read_buffer ≡ to_resp cmd ++ rest
      → process_commands execute (suc fuel) s
        ≡ process_commands execute fuel (ran execute cmd (length (to_resp cmd)) rest s)
  unfolding process_commands run_found run_parsed
  process_commands-one cmd rest fuel s (name, args, c, t, small) plain e =
      let go : Option (Turn S) → Option (SlaveReplicationClient S) = λ o. elim o [
        | none ↦ none
        | some turn ↦ elim turn [
          | stop s1 ↦ some s1
          | next s1 ↦ process_commands execute fuel s1
          | in_transaction ↦ none
        ]
      ] in
      let n = length s.read_buffer in
      ap
        (λ b. elim b [
          | [] ↦ some s
          | x ∷ xs ↦ go (run_found execute (parse_command (suc n) s.read_buffer 0) s)
        ])
        (e ∙ (begins rest c).1)
      ∙ ap (λ b. go (run_found execute (parse_command (suc n) b 0) s)) e
      ∙ ap (λ p. go (run_found execute p s)) (parse_command-to_resp n rest c t small)
      ∙ ap (λ u. go (some u))
          (run-Carries execute c plain (length (to_resp cmd)) (record s { read_buffer = rest }))

  -- A replica whose client is in no transaction, and whose buffer holds the printed forms of
  -- commands of Carries but MULTI one behind the other, whose texts hold no '\r' and fewer than 2 ^
  -- 64 bytes, with fewer than 2 ^ 31 arguments, executes exactly these commands in their order, for
  -- any number of passes above their number, leaves nothing in the buffer, and counts exactly the
  -- printed bytes, as long as the count stays below 2 ^ 64.
  pub process_commands-printed :
      (cmds : List (Command D)) (fuel : ℕ) (s : SlaveReplicationClient S)
      → All Sendable cmds
      → All (λ cmd. is_multi cmd ≡ false) cmds
      → s.read_buffer ≡ printed cmds
      → length cmds < fuel
      → s.bytes_processed + length (printed cmds) < 2 ^ 64
      → (t : SlaveReplicationClient S) × (process_commands execute fuel s ≡ some t)
        × (t.db ≡ execute_all cmds s.db)
        × (t.read_buffer ≡ [])
        × (t.bytes_processed ≡ s.bytes_processed + length (printed cmds))
  unfolding process_commands printed execute_all
  process_commands-printed [] (suc fuel) s sendable plain e enough small = (
    s,
    ap
        (λ b. elim b [
          | [] ↦ some s
          | x ∷ xs ↦
              elim (run_found execute (parse_command (suc (length s.read_buffer)) s.read_buffer 0)
                s) [
                  | none ↦ none
                  | some turn ↦ elim turn [
                    | stop s1 ↦ some s1
                    | next s1 ↦ process_commands execute fuel s1
                    | in_transaction ↦ none
                  ]
                ]
        ])
        e,
    refl,
    e,
    omega arith,
  )
  process_commands-printed [] zero s sendable plain e enough small = absurd (omega arith)
  process_commands-printed (cmd ∷ cmds) zero s sendable plain e enough small = absurd (omega arith)
  process_commands-printed (cmd ∷ cmds) (suc fuel) s (ok_cmd, ok_cmds) (one, plain) e enough small =
      let size = length-append (to_resp cmd) (printed cmds) in
      let s1 = ran execute cmd (length (to_resp cmd)) (printed cmds) s in
      let counted_bytes : s1.bytes_processed ≡ s.bytes_processed + length (to_resp cmd) =
        omega (arith, size) in
      let (t, done, same_db, empty, total) =
        process_commands-printed cmds fuel s1 ok_cmds plain refl (omega arith)
          (omega (arith, size)) in
      (
        t,
        process_commands-one cmd (printed cmds) fuel s ok_cmd one e ∙ done,
        same_db,
        empty,
        omega (arith, size),
      )
