-- ===== src/Listpack/Backlen.antt =====
-- The length that stands behind each element: lpEncodeBacklen, lpEncodeBacklenBytes and
-- lpDecodeBacklen of src/listpack.cpp.
pub mod RoundTrip
use carrotdb.Base.{
  ℕ, zero, suc, ◌+◌, ◌-◌, ◌*◌, ◌/◌, ◌%◌, ◌^◌, bit_and, bit_or, List, [], ◌∷◌, get_or, ltb, leb,
  ◌==◌, if◌then◌else◌,
}
use carrotdb.Base.Bits.{◌<<◌, ◌>>◌}
use carrotdb.Listpack.Number.{uint64_max, u64_mod}
use carrotdb.Listpack.Encoding.{uint8}

unfoldable pub more : ℕ → ℕ
more x = uint8 (bit_or (bit_and x 127) 128)

-- The bytes written into a buffer that is not null; the function returns their number.
unfoldable pub encode_backlen : ℕ → List ℕ
unfolding more
encode_backlen l =
    if leb l 127
    then uint8 l ∷ []
    else if ltb l 16383
    then uint8 (l >> 7) ∷ more l ∷ []
    else if ltb l 2097151
    then uint8 (l >> 14) ∷ more (l >> 7) ∷ more l ∷ []
    else if ltb l 268435455
    then uint8 (l >> 21) ∷ more (l >> 14) ∷ more (l >> 7) ∷ more l ∷ []
    else uint8 (l >> 28) ∷ more (l >> 21) ∷ more (l >> 14) ∷ more (l >> 7) ∷ more l ∷ []

unfoldable pub encode_backlen_bytes : ℕ → ℕ
encode_backlen_bytes l =
    if leb l 127
    then 1
    else if ltb l 16383
    then 2
    else if ltb l 2097151
    then 3
    else if ltb l 268435455
    then 4
    else 5

-- `rounds` is how often the loop may still read; the source stops after the fifth byte, when the
-- shift has passed 28, and answers UINT64_MAX.
unfoldable pub decode_loop : ℕ → List ℕ → ℕ → ℕ → ℕ → ℕ
decode_loop zero lp p value shift = uint64_max
decode_loop (suc rounds) lp p value shift =
    let byte = get_or lp p 0 in
    let value' = bit_or ((bit_and byte 127 << shift) % u64_mod) value in
    let rest = decode_loop rounds lp (p - 1) value' (shift + 7) in
    if bit_and byte 128 == 0 then value' else rest

-- `p` is the offset of the last byte of the encoded length.
unfoldable pub decode_backlen : List ℕ → ℕ → ℕ
unfolding decode_loop
decode_backlen lp p = decode_loop 5 lp p 0 0
