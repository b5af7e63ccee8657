-- ===== src/Replication/Info.antt =====
-- replication.cpp: the answer to INFO, and the time until the next client of WAIT expires.
use carrotdb.Base.{
  ℕ, ◌-◌, ◌%◌, ◌^◌, Bool, List, [], ◌∷◌, ◌++◌, none, some, ltb, leb, if◌then◌else◌, false, ◌==◌,
  ◌||◌,
}
use carrotdb.Base.Int.{ℤ, pos, negsuc, ltb_ℤ}
use carrotdb.Base.Decimal.{print_u64}
use carrotdb.Resp.Encode.{crlf, encode_bulk_string}
use carrotdb.Commands.Names.{Text}
use carrotdb.Replication.Master.{BlockedWaitClient}

abbrev role_master : Text
role_master =
    b'r' ∷ b'o' ∷ b'l' ∷ b'e' ∷ b':' ∷ b'm' ∷ b'a' ∷ b's' ∷ b't' ∷ b'e' ∷ b'r' ∷ b'\r' ∷ b'\n' ∷ []

abbrev role_slave : Text
role_slave =
    b'r' ∷ b'o' ∷ b'l' ∷ b'e' ∷ b':' ∷ b's' ∷ b'l' ∷ b'a' ∷ b'v' ∷ b'e' ∷ b'\r' ∷ b'\n' ∷ []

abbrev master_replid : Text
master_replid =
    b'm' ∷ b'a' ∷ b's' ∷ b't' ∷ b'e' ∷ b'r' ∷ b'_' ∷ b'r' ∷ b'e' ∷ b'p' ∷ b'l' ∷ b'i' ∷ b'd' ∷ b':'
    ∷ []

abbrev master_repl_offset : Text
master_repl_offset =
    b'm' ∷ b'a' ∷ b's' ∷ b't' ∷ b'e' ∷ b'r' ∷ b'_' ∷ b'r' ∷ b'e' ∷ b'p' ∷ b'l' ∷ b'_' ∷ b'o' ∷ b'f'
    ∷ b'f' ∷ b's' ∷ b'e' ∷ b't' ∷ b':' ∷ []

-- A replica tells its role only.
unfoldable pub handle_info : Bool → Text → ℕ → Text
handle_info is_master replication_id offset = encode_bulk_string [] (
    if is_master
    then (role_master
        ++ (master_replid ++ (replication_id ++ crlf))
        ++ (master_repl_offset ++ (print_u64 offset ++ crlf)))
    else role_slave)

-- `static_cast<int>` of a positive number of milliseconds.
unfoldable pub to_int : ℕ → ℤ
to_int n = let low = n % 2 ^ 32 in if ltb low (2 ^ 31) then pos low else negsuc (2 ^ 32 - 1 - low)

-- `min_timeout == -1`.
unfoldable pub is_minus_one : ℤ → Bool
is_minus_one (pos n) = false
is_minus_one (negsuc n) = n == 0

-- The loop, with the least time so far, which is -1 in front of the first client with a deadline. A
-- deadline that is over ends it with 0.
unfoldable pub least_timeout : ℕ → List BlockedWaitClient → ℤ → ℤ
least_timeout now [] min_timeout = min_timeout
least_timeout now (b ∷ bs) min_timeout = elim b.timeout_at [
  | none ↦ least_timeout now bs min_timeout
  | some at ↦
      (let remaining = at - now in
        let shorter = least_timeout now bs (to_int remaining) in
        let rest = least_timeout now bs min_timeout in
        if leb at now
        then pos 0
        else if is_minus_one min_timeout || ltb_ℤ (pos remaining) min_timeout
        then shorter
        else rest)
]

unfoldable pub get_next_wait_timeout_ms : ℕ → List BlockedWaitClient → ℤ
get_next_wait_timeout_ms now bs = least_timeout now bs (negsuc 0)
