-- ===== src/Commands/Parse/Admin.antt =====
-- The commands of replication, configuration and access control.
use carrotdb.Base.{
  ℕ, zero, suc, ◌-◌, ◌%◌, Bool, true, false, ◌||◌, List, [], ◌∷◌, ◌++◌, Option, none, some, ◌==◌,
  drop, if◌then◌else◌,
}
use carrotdb.Base.Int.{ℤ, pos, negsuc}
use carrotdb.Base.Bytes.{same}
use carrotdb.Utils.{is_equal, convert_positive_string_to_number}
use carrotdb.Commands.Names.{
  Text, replication_word, listening_port_word, capa_word, getack_word, ack_word, minus_one_word,
  get_word, whoami_word, getuser_word, setuser_word,
}
use carrotdb.Commands.Command.{
  Command, listening_port, capa, getack, ack, unknow_command, info_command, repl_conf_command,
  psync_command, wait_command, get_config_command, acl_whoami_command, acl_get_user_command,
  acl_set_user_command,
}
use carrotdb.Commands.Read.{next_bulk, next_text, required, number_so_far, to_signed_64}

-- The port is a number that is assigned to a string, which makes it one byte.
unfoldable pub port_text : Option ℕ → Text
port_text none = []
port_text (some port) = (port % 256) ∷ []

unfoldable pub signed_or : ℤ → Option ℕ → ℤ
signed_or old none = old
signed_or old (some n) = to_signed_64 n

unfoldable pub psync_offset : Text → ℤ
psync_offset offset_str =
    if same offset_str minus_one_word
    then negsuc 0
    else signed_or (negsuc 0) (convert_positive_string_to_number offset_str)

-- `arg[0]`, which is 0 for an empty text.
unfoldable pub first_of : Text → ℕ
first_of [] = 0
first_of (x ∷ s) = x

unfoldable pub is_password : ℕ → Bool
is_password c = (c == b'>') || (c == b'+') || (c == b'~')

-- The loop over the rules of a user: the password and the flags.
unfoldable pub rules : ℕ → List ℕ → ℕ → Option Text → List Text → (Option Text × List Text) × ℕ
rules zero buffer at password flags = ((password, flags), at)
rules (suc n) buffer at password flags = elim (next_bulk buffer at).0 [
  | none ↦ ((password, flags), (next_bulk buffer at).1)
  | some arg ↦ elim (is_password (first_of arg)) [
    | true ↦ rules n buffer (next_bulk buffer at).1 (some (drop 1 arg)) flags
    | false ↦ rules n buffer (next_bulk buffer at).1 password (flags ++ (arg ∷ []))
  ]
]

-- The parameters of CONFIG GET; none where one is no bulk string.
unfoldable pub parameters : ℕ → List ℕ → ℕ → List Text → Option (List Text) × ℕ
parameters zero buffer at out = (some out, at)
parameters (suc n) buffer at out = elim (next_bulk buffer at).0 [
  | none ↦ (none, (next_bulk buffer at).1)
  | some t ↦ parameters n buffer (next_bulk buffer at).1 (out ++ (t ∷ []))
]

module _ {D : Type 0} where
  unfoldable pub parse_info : List ℕ → ℕ → Command D × ℕ
  parse_info buffer at =
      required (next_bulk buffer at)
        (λ info_section end. (info_command (is_equal info_section replication_word), end))

  unfoldable pub repl_conf_of : Text → List ℕ → ℕ → Command D × ℕ
  repl_conf_of conf_type buffer at =
      let argument = next_text buffer at in
      if is_equal conf_type listening_port_word
      then (
        repl_conf_command listening_port (port_text (convert_positive_string_to_number argument.0))
            [] (pos 0),
        argument.1,
      )
      else if is_equal conf_type capa_word
      then (repl_conf_command capa [] argument.0 (pos 0), argument.1)
      else if is_equal conf_type getack_word
      then (repl_conf_command getack [] [] (pos 0), argument.1)
      else if is_equal conf_type ack_word
      then (
        repl_conf_command ack [] []
            (signed_or (pos 0) (convert_positive_string_to_number argument.0)),
        argument.1,
      )
      else (repl_conf_command listening_port [] [] (pos 0), at)

  unfoldable pub parse_repl_conf : List ℕ → ℕ → Command D × ℕ
  parse_repl_conf buffer at =
      required (next_bulk buffer at) (λ conf_type at1. repl_conf_of conf_type buffer at1)

  unfoldable pub psync_of : Text → ℕ → List ℕ → ℕ → Command D × ℕ
  psync_of repl_id (suc (suc n)) buffer at =
      required (next_bulk buffer at)
        (λ offset_str end. (psync_command repl_id (psync_offset offset_str), end))
  psync_of repl_id zero buffer at = (psync_command repl_id (pos 0), at)
  psync_of repl_id (suc zero) buffer at = (psync_command repl_id (pos 0), at)

  unfoldable pub parse_psync : List ℕ → ℕ → ℕ → Command D × ℕ
  parse_psync buffer total at =
      required (next_bulk buffer at) (λ repl_id at1. psync_of repl_id total buffer at1)

  unfoldable pub wait_of : ℕ → Text × ℕ → Command D × ℕ
  wait_of num_replica (timeout, at) = (wait_command num_replica (number_so_far timeout 0), at)

  unfoldable pub parse_wait : List ℕ → ℕ → Command D × ℕ
  parse_wait buffer at =
      required (next_bulk buffer at)
        (λ num_replica at1. wait_of (number_so_far num_replica 0) (next_text buffer at1))

  unfoldable pub get_config_of : Option (List Text) × ℕ → Command D × ℕ
  get_config_of (none, at) = (unknow_command, at)
  get_config_of (some texts, at) = (get_config_command texts, at)

  unfoldable pub parse_get_config : List ℕ → ℕ → ℕ → Command D × ℕ
  parse_get_config buffer total at = required (next_bulk buffer at) (λ command_type at1.
      if is_equal command_type get_word
      then get_config_of (parameters (total - 1) buffer at1 [])
      else (unknow_command, at1))

  -- GETUSER with no name, with one, or with more than one.
  unfoldable pub get_user_of : ℕ → List ℕ → ℕ → Command D × ℕ
  get_user_of zero buffer at = (acl_get_user_command [], at)
  get_user_of (suc zero) buffer at =
      required (next_bulk buffer at) (λ username end. (acl_get_user_command username, end))
  get_user_of (suc (suc n)) buffer at = (unknow_command, at)

  unfoldable pub user_of : Text → (Option Text × List Text) × ℕ → Command D × ℕ
  user_of username ((password, flags), at) = (acl_set_user_command username password flags, at)

  unfoldable pub set_user_of : ℕ → List ℕ → ℕ → Command D × ℕ
  set_user_of zero buffer at = (unknow_command, at)
  set_user_of (suc n) buffer at =
      required (next_bulk buffer at) (λ username at1. user_of username (rules n buffer at1 none []))

  unfoldable pub parse_acl : List ℕ → ℕ → ℕ → Command D × ℕ
  parse_acl buffer zero at = (unknow_command, at)
  parse_acl buffer (suc total) at = required (next_bulk buffer at) (λ cmd_name at1.
      if is_equal cmd_name whoami_word
      then (acl_whoami_command, at1)
      else if is_equal cmd_name getuser_word
      then get_user_of total buffer at1
      else if is_equal cmd_name setuser_word
      then set_user_of total buffer at1
      else (unknow_command, at1))
