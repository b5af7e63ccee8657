-- ===== src/Listpack/Walk.antt =====
-- Moving over the elements of a block: lpValidateNext, lpValidateIntegrity, lpNext, lpPrev, lpFirst,
-- lpLast, lpSeek, lpLength and lpPrepend of src/listpack.cpp. A pointer into the block is its offset,
-- and null is `none`; a failed assert aborts.
pub mod Step
pub mod Sequence
pub mod Seek
pub mod Length
pub mod Integrity
use carrotdb.Base.{
  ℕ, zero, suc, ◌+◌, ◌-◌, ◌*◌, ◌/◌, ◌%◌, ◌^◌, Bool, true, false, ◌&&◌, ◌||◌, not, List, [], ◌∷◌,
  Option, none, some, length, drop, ltb, leb, ◌==◌, if◌then◌else◌,
}
use carrotdb.Base.Int.{ℤ, pos, negsuc, ◌+ℤ◌, ltb_ℤ, leb_ℤ, neg_part, pos_part, sub_ℕ}
use carrotdb.Listpack.Backlen.{encode_backlen_bytes, decode_backlen}
use carrotdb.Listpack.Element.{
  byte, lp_eof, current_encoded_size_unsafe, current_encoded_size_bytes,
}
use carrotdb.Listpack.Header.{
  lp_header_size, lp_hdr_numele_unknown, get_total_bytes, get_total_num_elements, set_num_elements,
}
use carrotdb.Listpack.Insert.{
  Outcome, returns, aborts, Inserted, before, lp_insert, lp_append, entry_length,
}

pub is_out_of_range : ℕ → ℕ → Bool
is_out_of_range lpbytes p = ltb p lp_header_size || ltb (lpbytes - 1) p

-- `none` is the answer false; on true it is what the pointer is set to.
pub validate_next : List ℕ → ℕ → ℕ → Option (Option ℕ)
validate_next lp lpbytes p =
    let here = drop p lp in
    let lenbytes = current_encoded_size_bytes here in
    let entrylen = entry_length lp p in
    let backlen_bytes = encode_backlen_bytes (current_encoded_size_unsafe here) in
    let prevbacklen = decode_backlen lp (p + entrylen - 1) in
    if is_out_of_range lpbytes p
    then none
    else if byte here 0 == lp_eof
    then some none
    else if lenbytes == 0
    then none
    else if is_out_of_range lpbytes (p + lenbytes)
    then none
    else if is_out_of_range lpbytes (p + entrylen)
    then none
    else if not ((prevbacklen + backlen_bytes) % 2 ^ 64 == entrylen)
    then none
    else some (some (p + entrylen))

-- `assert(lpValidateNext(…))`, then the pointer is handed on.
pub assert_valid : List ℕ → ℕ → Outcome (Option ℕ)
assert_valid lp p = elim (validate_next lp (get_total_bytes lp) p) [
  | none ↦ aborts
  | some q ↦ returns (some p)
]

-- The loop of the deep check. The result is the pointer behind the last element and the count, or
-- `none` where the answer is false; the outer `none` is a loop that is out of fuel.
pub validate_loop : ℕ → List ℕ → ℕ → Option ℕ → ℕ → Option (Option (Option ℕ × ℕ))
validate_loop zero lp total p count = none
validate_loop (suc fuel) lp total none count = some (some (none, count))
validate_loop (suc fuel) lp total (some p) count =
    if byte (drop p lp) 0 == lp_eof
    then some (some (some p, count))
    else elim (validate_next lp total p) [
      | none ↦ some none
      | some q ↦ validate_loop fuel lp total q (count + 1)
    ]

pub validate_end : List ℕ → ℕ → Option (Option ℕ × ℕ) → Bool
validate_end lp size none = false
validate_end lp size (some (none, count)) = false
validate_end lp size (some (some p, count)) =
    let num = get_total_num_elements lp in
    p == size - 1 && (num == lp_hdr_numele_unknown || num == count)

-- lpValidateIntegrity of a block that is not null. Every round passes a byte at least, so `size`
-- rounds are enough.
pub validate_integrity : List ℕ → ℕ → Bool → Option Bool
validate_integrity lp size deep =
    let walked = validate_loop size lp (get_total_bytes lp) (some lp_header_size) 0 in
    if ltb size 7
    then some false
    else if not (get_total_bytes lp == size)
    then some false
    else if not (byte (drop (size - 1) lp) 0 == lp_eof)
    then some false
    else if not deep
    then some true
    else elim walked [ none ↦ none | some w ↦ some (validate_end lp size w) ]

pub lp_next : List ℕ → ℕ → Outcome (Option ℕ)
lp_next lp p =
    let p' = p + entry_length lp p in
    if is_out_of_range (get_total_bytes lp) p'
    then returns none
    else if byte (drop p' lp) 0 == lp_eof
    then returns none
    else assert_valid lp p'

pub lp_prev : List ℕ → ℕ → Outcome (Option ℕ)
lp_prev lp p =
    let prevlen = decode_backlen lp (p - 1) in
    let whole = prevlen + encode_backlen_bytes prevlen in
    if p == lp_header_size then returns none else assert_valid lp (p - 1 - whole + 1)

pub lp_first : List ℕ → Outcome (Option ℕ)
lp_first lp =
    if byte (drop lp_header_size lp) 0 == lp_eof
    then returns none
    else assert_valid lp lp_header_size

pub lp_last : List ℕ → Outcome (Option ℕ)
lp_last lp = lp_prev lp (get_total_bytes lp - 1)

-- The loops of lpSeek: so many steps to the right, or to the left, until the pointer is null.
pub steps_right : ℕ → List ℕ → Outcome (Option ℕ) → Outcome (Option ℕ)
steps_right zero lp p = p
steps_right (suc n) lp aborts = aborts
steps_right (suc n) lp (returns none) = returns none
steps_right (suc n) lp (returns (some p)) = steps_right n lp (lp_next lp p)

pub steps_left : ℕ → List ℕ → Outcome (Option ℕ) → Outcome (Option ℕ)
steps_left zero lp p = p
steps_left (suc n) lp aborts = aborts
steps_left (suc n) lp (returns none) = returns none
steps_left (suc n) lp (returns (some p)) = steps_left n lp (lp_prev lp p)

-- From the left for an index that is not negative, else from the right, where -1 is the last.
pub seek_from : List ℕ → ℤ → Outcome (Option ℕ)
seek_from lp (pos n) = steps_right n lp (lp_first lp)
seek_from lp (negsuc n) = steps_left n lp (lp_last lp)

pub seek_index : List ℕ → ℕ → ℤ → Outcome (Option ℕ)
seek_index lp num (negsuc n) = returns none
seek_index lp num (pos n) =
    if leb num n
    then returns none
    else if ltb (num / 2) n
    then seek_from lp (sub_ℕ n num)
    else seek_from lp (pos n)

pub lp_seek : List ℕ → ℤ → Outcome (Option ℕ)
lp_seek lp index =
    let num = get_total_num_elements lp in
    if num == lp_hdr_numele_unknown
    then seek_from lp index
    else seek_index lp num (if ltb_ℤ index (pos 0) then pos num +ℤ index else index)

-- The loop of lpLength over the elements; `none` is a loop that is out of fuel.
pub count_loop : ℕ → List ℕ → Outcome (Option ℕ) → ℕ → Option (Outcome ℕ)
count_loop fuel lp aborts count = some aborts
count_loop fuel lp (returns none) count = some (returns count)
count_loop zero lp (returns (some p)) count = none
count_loop (suc fuel) lp (returns (some p)) count = count_loop fuel lp (lp_next lp p) (count + 1)

pub store_count : List ℕ → Outcome ℕ → Outcome (ℕ × List ℕ)
store_count lp aborts = aborts
store_count lp (returns count) =
    returns (count, if ltb count lp_hdr_numele_unknown then set_num_elements lp count else lp)

-- The length, and the block, whose header is given the count where that was unknown. Each round
-- passes a byte at least.
pub lp_length : List ℕ → Option (Outcome (ℕ × List ℕ))
lp_length lp =
    let num = get_total_num_elements lp in
    let counted = count_loop (get_total_bytes lp) lp (lp_first lp) 0 in
    if not (num == lp_hdr_numele_unknown)
    then some (returns (num, lp))
    else elim counted [ none ↦ none | some c ↦ some (store_count lp c) ]

pub prepend_at : (ℕ → Bool) → List ℕ → List ℕ → Outcome (Option ℕ) → Outcome (Option Inserted)
prepend_at alloc lp s aborts = aborts
prepend_at alloc lp s (returns none) = lp_append alloc lp s
prepend_at alloc lp s (returns (some p)) = lp_insert alloc lp (some s) none (length s) p before

pub lp_prepend : (ℕ → Bool) → List ℕ → List ℕ → Outcome (Option Inserted)
lp_prepend alloc lp s = prepend_at alloc lp s (lp_first lp)
