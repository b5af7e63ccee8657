-- ===== src/Lists/Pop.antt =====
-- handle_lpop on a key that holds a list. A null listpack is none; reading through it aborts.
use carrotdb.Base.{ℕ, zero, suc, Bool, List, [], ◌∷◌, ◌++◌, Option, none, some, drop}
use carrotdb.Listpack.Element.{element_text}
use carrotdb.Listpack.Insert.{Outcome, returns, aborts, Inserted, lp_delete}
use carrotdb.Listpack.Walk.{lp_first}
use carrotdb.Resp.Encode.{encode_bulk_string, encode_bulk_string_array}

-- The listpack after a deletion; null where the deletion failed.
unfoldable pub block_of : Option Inserted → Option (List ℕ)
block_of none = none
block_of (some r) = some r.block

-- The value at the first element, and the listpack after its deletion; none where there is none.
unfoldable pub lpop_at :
    (ℕ → Bool) → List ℕ → Option ℕ → Outcome (Option (List ℕ × Option (List ℕ)))
lpop_at alloc lp none = returns none
lpop_at alloc lp (some p) = elim (lp_delete alloc lp p) [
  | aborts ↦ aborts
  | returns r ↦ returns (some (element_text (drop p lp), block_of r))
]

-- One round of the loop.
unfoldable pub lpop_round :
    (ℕ → Bool) → Option (List ℕ) → Outcome (Option (List ℕ × Option (List ℕ)))
lpop_round alloc none = aborts
lpop_round alloc (some lp) = elim (lp_first lp) [ aborts ↦ aborts | returns p ↦ lpop_at alloc lp p ]

-- The listpack that stays, and the values that were taken.
unfoldable pub lpop_loop :
    (ℕ → Bool) → ℕ → Option (List ℕ) → List (List ℕ) → Outcome (Option (List ℕ) × List (List ℕ))
lpop_loop alloc zero lp result = returns (lp, result)
lpop_loop alloc (suc total_count) lp result = elim (lpop_round alloc lp) [
  | aborts ↦ aborts
  | returns none ↦ returns (lp, result)
  | returns (some (value, next)) ↦ lpop_loop alloc total_count next (result ++ (value ∷ []))
]

abbrev null_bulk_string : List ℕ
null_bulk_string = b'$' ∷ b'-' ∷ b'1' ∷ b'\r' ∷ b'\n' ∷ []

-- The reply for the values, appended to the client's buffer.
unfoldable pub lpop_reply : List ℕ → List (List ℕ) → List ℕ
lpop_reply buffer [] = buffer ++ null_bulk_string
lpop_reply buffer (value ∷ []) = encode_bulk_string buffer value
lpop_reply buffer (value ∷ v ∷ vs) = encode_bulk_string_array buffer (value ∷ v ∷ vs)
