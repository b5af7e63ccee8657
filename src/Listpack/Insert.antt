-- ===== src/Listpack/Insert.antt =====
-- lpInsert of src/listpack.cpp and its wrappers. `alloc n` says whether an allocation of `n` bytes
-- succeeds. A null block is `none`; a failed assert aborts.
pub mod Content
pub mod Gap
pub mod Refinement
pub mod Deletion
pub mod Refusal
use carrotdb.Base.{
  ℕ, ◌+◌, ◌-◌, ◌*◌, ◌%◌, ◌^◌, Bool, true, false, ◌&&◌, ◌||◌, List, [], ◌∷◌, ◌++◌, Option, none,
  some, length, take, drop, ltb, leb, ◌==◌, if◌then◌else◌,
}
use carrotdb.Base.Int.{ℤ}
use carrotdb.Listpack.Encoding.{encode_integer, encode_string, encode_get_type, Choice}
use carrotdb.Listpack.Backlen.{encode_backlen, encode_backlen_bytes}
use carrotdb.Listpack.Element.{byte, lp_eof, current_encoded_size_unsafe}
use carrotdb.Listpack.Memory.{memmove, memcpy, new_block}
use carrotdb.Listpack.Header.{
  lp_header_size, lp_hdr_numele_unknown, get_total_bytes, get_total_num_elements, set_total_bytes,
  set_num_elements,
}

pub data Where : Type 0 where
  before after replace : Where

pub data Outcome {ℓ} (A : Type ℓ) : Type ℓ where
  returns : A → Outcome A
  aborts : Outcome A

-- The new block and what is stored in `*newp`.
pub record Inserted : Type 0 where
  pub block : List ℕ
  pub newp : Option ℕ

-- ASSERT_INTEGRITY and ASSERT_INTEGRITY_LEN.
pub inside : List ℕ → ℕ → Bool
inside lp p = leb lp_header_size p && ltb p (get_total_bytes lp)

pub inside_len : List ℕ → ℕ → ℕ → Bool
inside_len lp p len = leb lp_header_size p && ltb (p + len) (get_total_bytes lp)

-- lpSkip, as a distance: the bytes of the element at `p` with its length.
unfoldable pub entry_length : List ℕ → ℕ → ℕ
entry_length lp p =
    let entrylen = current_encoded_size_unsafe (drop p lp) in
    entrylen + encode_backlen_bytes entrylen

-- What is to be stored: the bytes that are copied to the element's place, and `enclen`.
pub record Payload : Type 0 where
  pub bytes : List ℕ
  pub enclen : ℕ

abbrev pub chosen : List ℕ → Choice → Payload
chosen elestr choice = elim choice.intenc [
  | some intenc ↦ record { bytes = take choice.enclen intenc; enclen = choice.enclen }
  | none ↦ record { bytes = encode_string elestr; enclen = choice.enclen }
]

-- `none` is the deletion, where both pointers are null.
pub payload : Option (List ℕ) → Option (List ℕ) → ℕ → Option Payload
payload (some elestr) eleint size = some (chosen elestr (encode_get_type elestr))
payload none (some eleint) size = some (record { bytes = take size eleint; enclen = size })
payload none none size = none

abbrev pub payload_enclen : Option Payload → ℕ
payload_enclen none = 0
payload_enclen (some pl) = pl.enclen

abbrev pub payload_backlen : Option Payload → List ℕ
payload_backlen none = []
payload_backlen (some pl) = encode_backlen pl.enclen

-- The element and its length are copied to `dst`; a deletion copies nothing.
pub write_payload : Option Payload → List ℕ → ℕ → List ℕ
write_payload none lp dst = lp
write_payload (some pl) lp dst =
    memcpy (memcpy lp dst pl.bytes) (dst + pl.enclen) (encode_backlen pl.enclen)

-- The element count, unless it is marked unknown. `num_elements - 1` is a uint32_t.
pub update_count : Bool → Option Payload → List ℕ → List ℕ
update_count replacing none lp =
    let num = get_total_num_elements lp in
    if num == lp_hdr_numele_unknown then lp else set_num_elements lp ((num + 2 ^ 32 - 1) % 2 ^ 32)
update_count true (some pl) lp = lp
update_count false (some pl) lp =
    let num = get_total_num_elements lp in
    if num == lp_hdr_numele_unknown then lp else set_num_elements lp (num + 1)

abbrev pub newp_of : Option Payload → List ℕ → ℕ → Option ℕ
newp_of none lp dst = if byte (drop dst lp) 0 == lp_eof then none else some dst
newp_of (some pl) lp dst = some dst

-- `realloc before` and `realloc after`: a new block where the size goes up, or down.
pub grow : ℕ → ℕ → List ℕ → List ℕ
grow old_bytes new_bytes lp =
    if ltb old_bytes new_bytes then new_block new_bytes old_bytes lp else lp

pub shrink : ℕ → ℕ → List ℕ → List ℕ
shrink old_bytes new_bytes lp =
    if ltb new_bytes old_bytes then new_block new_bytes new_bytes lp else lp

-- The bytes behind `dst` are moved to leave `room` for what is written.
pub move_tail : Bool → ℕ → ℕ → ℕ → ℕ → List ℕ → List ℕ
move_tail true old_bytes replaced_len dst room lp =
    memmove lp (dst + room) (dst + replaced_len) (old_bytes - dst - replaced_len)
move_tail false old_bytes replaced_len dst room lp = memmove lp (dst + room) dst (old_bytes - dst)

-- The block before anything is written into it.
pub make_room : Option Payload → Bool → ℕ → ℕ → ℕ → ℕ → List ℕ → List ℕ
make_room pl replacing replaced_len dst old_bytes new_bytes lp =
    let room = payload_enclen pl + length (payload_backlen pl) in
    shrink old_bytes new_bytes
      (move_tail replacing old_bytes replaced_len dst room (grow old_bytes new_bytes lp))

-- The stores: the element, the count, the size.
pub fill_room : Option Payload → Bool → ℕ → ℕ → List ℕ → Inserted
fill_room pl replacing dst new_bytes lp = record {
  block = set_total_bytes (update_count replacing pl (write_payload pl lp dst)) new_bytes;
  newp = newp_of pl lp dst;
}

-- The size check and the allocation, which either reallocation asks for.
pub may_store : (ℕ → Bool) → ℕ → ℕ → Bool
may_store alloc old_bytes new_bytes =
    leb new_bytes (2 ^ 32 - 1) && (new_bytes == old_bytes || alloc new_bytes)

-- The body from `poff` on; the sizes are computed in uint64_t.
pub insert_at : (ℕ → Bool) → List ℕ → Option Payload → Bool → ℕ → ℕ → Option Inserted
insert_at alloc lp pl replacing replaced_len dst =
    let old_bytes = get_total_bytes lp in
    let room = payload_enclen pl + length (payload_backlen pl) in
    let new_bytes = (old_bytes + room + (2 ^ 64 - replaced_len)) % 2 ^ 64 in
    if may_store alloc old_bytes new_bytes
    then some (
        fill_room pl replacing dst new_bytes
          (make_room pl replacing replaced_len dst old_bytes new_bytes lp))
    else none

-- LP_REPLACE: the length of the element that gives way is a uint32_t.
pub replace_at : (ℕ → Bool) → List ℕ → Option Payload → ℕ → Outcome (Option Inserted)
replace_at alloc lp pl p =
    let replaced_len = entry_length lp p % 2 ^ 32 in
    if inside_len lp p replaced_len
    then returns (insert_at alloc lp pl true replaced_len p)
    else aborts

pub after_at : (ℕ → Bool) → List ℕ → Option Payload → ℕ → Outcome (Option Inserted)
after_at alloc lp pl p =
    let p' = p + entry_length lp p in
    if inside lp p' then returns (insert_at alloc lp pl false 0 p') else aborts

pub dispatch : (ℕ → Bool) → List ℕ → Option Payload → Where → ℕ → Outcome (Option Inserted)
dispatch alloc lp none place p = replace_at alloc lp none p
dispatch alloc lp (some pl) replace p = replace_at alloc lp (some pl) p
dispatch alloc lp (some pl) after p = after_at alloc lp (some pl) p
dispatch alloc lp (some pl) before p = returns (insert_at alloc lp (some pl) false 0 p)

pub lp_insert :
    (ℕ → Bool)
    → List ℕ
    → Option (List ℕ)
    → Option (List ℕ)
    → ℕ
    → ℕ
    → Where
    → Outcome (Option Inserted)
lp_insert alloc lp elestr eleint size p place =
    dispatch alloc lp (payload elestr eleint size) place p

unfoldable pub lp_insert_string :
    (ℕ → Bool) → List ℕ → List ℕ → ℕ → Where → Outcome (Option Inserted)
lp_insert_string alloc lp s p place = lp_insert alloc lp (some s) none (length s) p place

unfoldable pub lp_insert_integer : (ℕ → Bool) → List ℕ → ℤ → ℕ → Where → Outcome (Option Inserted)
lp_insert_integer alloc lp lval p place =
    lp_insert alloc lp none (some (encode_integer lval)) (length (encode_integer lval)) p place

pub lp_append : (ℕ → Bool) → List ℕ → List ℕ → Outcome (Option Inserted)
lp_append alloc lp ele =
    lp_insert alloc lp (some ele) none (length ele) (get_total_bytes lp - 1) before

unfoldable pub lp_append_integer : (ℕ → Bool) → List ℕ → ℤ → Outcome (Option Inserted)
lp_append_integer alloc lp lval = lp_insert_integer alloc lp lval (get_total_bytes lp - 1) before

pub lp_delete : (ℕ → Bool) → List ℕ → ℕ → Outcome (Option Inserted)
lp_delete alloc lp p = lp_insert alloc lp none none 0 p replace
