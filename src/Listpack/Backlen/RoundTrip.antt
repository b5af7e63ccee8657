-- ===== src/Listpack/Backlen/RoundTrip.antt =====
-- The length that is written behind an element is the one that is read from its last byte.
use carrotdb.Base.{
  ℕ, suc, ◌+◌, ◌-◌, ◌*◌, ◌/◌, ◌%◌, ◌^◌, ◌<◌, ◌≡◌, refl, ◌∙◌, true, false, bit_and, bit_or, List, [],
  ◌∷◌, ◌++◌, get_or, get_or-append, length, arith, ◌==◌,
}
use carrotdb.Base.Bits.{◌<<◌, bit_or-shl, bit_and_low, bit_or_comm, all_below, all_below_sound}
use native.Mathlib.Nat.{mod-eq_of_lt}
use native.Mathlib.Decide.{dec_lt}
use carrotdb.Listpack.Number.{u64_mod}
use carrotdb.Listpack.Backlen.{
  more, encode_backlen, encode_backlen_bytes, decode_loop, decode_backlen,
}

pub length-encode_backlen : (l : ℕ) → length (encode_backlen l) ≡ encode_backlen_bytes l
unfolding encode_backlen encode_backlen_bytes
length-encode_backlen l = ground arith

more_lem : (x : ℕ) → more x ≡ x % 128 + 128
unfolding more
more_lem x =
    omega (arith, bit_and_low 7 x, bit_or-shl 7 (bit_and x 127) 1 (omega (arith, bit_and_low 7 x)))

-- A byte with the top bit set is followed by another.
more_bit : (g : ℕ) → g < 128 → (bit_and (g + 128) 128 == 0) ≡ false
unfolding all_below
more_bit g h = ground (arith, all_below_sound 128 (λ x. bit_and (x + 128) 128 == 128) g refl h)

last_bit : (g : ℕ) → g < 128 → (bit_and g 128 == 0) ≡ true
unfolding all_below
last_bit g h = all_below_sound 128 (λ x. bit_and x 128 == 0) g refl h

-- One round on a byte that carries the group `g` over a value that fits below the shift.
group_value :
    (byte g value shift : ℕ)
    → byte % 128 ≡ g
    → value < 2 ^ shift
    → g * 2 ^ shift < u64_mod
    → bit_or ((bit_and byte 127 << shift) % u64_mod) value ≡ value + g * 2 ^ shift
group_value byte g value shift e fits room =
    rw (bit_and_low 7 byte, e, mod-eq_of_lt room, bit_or_comm) (bit_or-shl shift value g fits)

last_round :
    (rounds p value shift g : ℕ) (lp : List ℕ)
    → get_or lp p 0 ≡ g
    → g < 128
    → value < 2 ^ shift
    → g * 2 ^ shift < u64_mod
    → decode_loop (suc rounds) lp p value shift ≡ value + g * 2 ^ shift
unfolding decode_loop
last_round rounds p value shift g lp e small fits room =
    rw (e, last_bit g small) (group_value g g value shift (omega arith) fits room)

more_round :
    (rounds p value shift g : ℕ) (lp : List ℕ)
    → get_or lp p 0 ≡ g + 128
    → g < 128
    → value < 2 ^ shift
    → g * 2 ^ shift < u64_mod
    → decode_loop (suc rounds) lp p value shift
      ≡ decode_loop rounds lp (p - 1) (value + g * 2 ^ shift) (shift + 7)
unfolding decode_loop
more_round rounds p value shift g lp e small fits room =
    rw (e, more_bit g small, group_value (g + 128) g value shift (omega arith) fits room)

one_bytes :
    (p g0 : ℕ) (lp : List ℕ) → get_or lp (p) 0 ≡ g0 → g0 < 128 → decode_backlen lp p ≡ g0 * 1
unfolding decode_backlen
one_bytes p g0 lp e0 h0 =
    last_round 4 (p) (0) 0 g0 lp e0 h0 (omega arith) (omega arith) ∙ omega arith

two_bytes :
    (p g0 g1 : ℕ) (lp : List ℕ)
    → get_or lp (p) 0 ≡ g0 + 128
    → get_or lp (p - 1) 0 ≡ g1
    → g0 < 128
    → g1 < 128
    → decode_backlen lp p ≡ g0 * 1 + g1 * 128
unfolding decode_backlen
two_bytes p g0 g1 lp e0 e1 h0 h1 =
    more_round 4 (p) (0) 0 g0 lp e0 h0 (omega arith) (omega arith)
    ∙ last_round 3 (p - 1) (0 + g0 * 2 ^ 0) 7 g1 lp e1 h1 (omega arith) (omega arith)
    ∙ omega arith

three_bytes :
    (p g0 g1 g2 : ℕ) (lp : List ℕ)
    → get_or lp (p) 0 ≡ g0 + 128
    → get_or lp (p - 1) 0 ≡ g1 + 128
    → get_or lp (p - 1 - 1) 0 ≡ g2
    → g0 < 128
    → g1 < 128
    → g2 < 128
    → decode_backlen lp p ≡ g0 * 1 + g1 * 128 + g2 * 16384
unfolding decode_backlen
three_bytes p g0 g1 g2 lp e0 e1 e2 h0 h1 h2 =
    more_round 4 (p) (0) 0 g0 lp e0 h0 (omega arith) (omega arith)
    ∙ more_round 3 (p - 1) (0 + g0 * 2 ^ 0) 7 g1 lp e1 h1 (omega arith) (omega arith)
    ∙ last_round 2 (p - 1 - 1) (0 + g0 * 2 ^ 0 + g1 * 2 ^ 7) 14 g2 lp e2 h2 (omega arith)
        (omega arith)
    ∙ omega arith

four_bytes :
    (p g0 g1 g2 g3 : ℕ) (lp : List ℕ)
    → get_or lp (p) 0 ≡ g0 + 128
    → get_or lp (p - 1) 0 ≡ g1 + 128
    → get_or lp (p - 1 - 1) 0 ≡ g2 + 128
    → get_or lp (p - 1 - 1 - 1) 0 ≡ g3
    → g0 < 128
    → g1 < 128
    → g2 < 128
    → g3 < 128
    → decode_backlen lp p ≡ g0 * 1 + g1 * 128 + g2 * 16384 + g3 * 2097152
unfolding decode_backlen
four_bytes p g0 g1 g2 g3 lp e0 e1 e2 e3 h0 h1 h2 h3 =
    more_round 4 (p) (0) 0 g0 lp e0 h0 (omega arith) (omega arith)
    ∙ more_round 3 (p - 1) (0 + g0 * 2 ^ 0) 7 g1 lp e1 h1 (omega arith) (omega arith)
    ∙ more_round 2 (p - 1 - 1) (0 + g0 * 2 ^ 0 + g1 * 2 ^ 7) 14 g2 lp e2 h2 (omega arith)
        (omega arith)
    ∙ last_round 1 (p - 1 - 1 - 1) (0 + g0 * 2 ^ 0 + g1 * 2 ^ 7 + g2 * 2 ^ 14) 21 g3 lp e3 h3
        (omega arith) (omega arith)
    ∙ omega arith

five_bytes :
    (p g0 g1 g2 g3 g4 : ℕ) (lp : List ℕ)
    → get_or lp (p) 0 ≡ g0 + 128
    → get_or lp (p - 1) 0 ≡ g1 + 128
    → get_or lp (p - 1 - 1) 0 ≡ g2 + 128
    → get_or lp (p - 1 - 1 - 1) 0 ≡ g3 + 128
    → get_or lp (p - 1 - 1 - 1 - 1) 0 ≡ g4
    → g0 < 128
    → g1 < 128
    → g2 < 128
    → g3 < 128
    → g4 < 128
    → decode_backlen lp p ≡ g0 * 1 + g1 * 128 + g2 * 16384 + g3 * 2097152 + g4 * 268435456
unfolding decode_backlen
five_bytes p g0 g1 g2 g3 g4 lp e0 e1 e2 e3 e4 h0 h1 h2 h3 h4 =
    more_round 4 (p) (0) 0 g0 lp e0 h0 (omega arith) (omega arith)
    ∙ more_round 3 (p - 1) (0 + g0 * 2 ^ 0) 7 g1 lp e1 h1 (omega arith) (omega arith)
    ∙ more_round 2 (p - 1 - 1) (0 + g0 * 2 ^ 0 + g1 * 2 ^ 7) 14 g2 lp e2 h2 (omega arith)
        (omega arith)
    ∙ more_round 1 (p - 1 - 1 - 1) (0 + g0 * 2 ^ 0 + g1 * 2 ^ 7 + g2 * 2 ^ 14) 21 g3 lp e3 h3
        (omega arith) (omega arith)
    ∙ last_round 0 (p - 1 - 1 - 1 - 1) (0 + g0 * 2 ^ 0 + g1 * 2 ^ 7 + g2 * 2 ^ 14 + g3 * 2 ^ 21) 28
        g4 lp e4 h4 (omega arith) (omega arith)
    ∙ omega arith

byte_at : (pre bs : List ℕ) (k p : ℕ) → p ≡ length pre + k → get_or (pre ++ bs) p 0 ≡ get_or bs k 0
byte_at pre bs k p e = rw e (get_or-append pre bs k 0)

one_format : (l : ℕ) → l < 128 → (encode_backlen l ≡ (l) ∷ []) × (encode_backlen_bytes l ≡ 1)
unfolding encode_backlen encode_backlen_bytes
one_format l h0 = ground (arith)

two_format :
    (l : ℕ)
    → 127 < l
    → l < 16383
    → (encode_backlen l ≡ (l / 128) ∷ (l % 128 + 128) ∷ []) × (encode_backlen_bytes l ≡ 2)
unfolding encode_backlen encode_backlen_bytes
two_format l h0 h1 = ground (arith, more_lem l)

three_format :
    (l : ℕ)
    → 16382 < l
    → l < 2097151
    → (encode_backlen l ≡ (l / 16384) ∷ (l / 128 % 128 + 128) ∷ (l % 128 + 128) ∷ [])
      × (encode_backlen_bytes l ≡ 3)
unfolding encode_backlen encode_backlen_bytes
three_format l h0 h1 = ground (arith, more_lem l, more_lem (l / 128))

four_format :
    (l : ℕ)
    → 2097150 < l
    → l < 268435455
    → (encode_backlen l
        ≡ (l / 2097152) ∷ (l / 16384 % 128 + 128) ∷ (l / 128 % 128 + 128) ∷ (l % 128 + 128) ∷ [])
      × (encode_backlen_bytes l ≡ 4)
unfolding encode_backlen encode_backlen_bytes
four_format l h0 h1 = ground (arith, more_lem l, more_lem (l / 128), more_lem (l / 16384))

five_format :
    (l : ℕ)
    → 268435454 < l
    → l < 2 ^ 35
    → (encode_backlen l
        ≡ (l / 268435456)
          ∷ (l / 2097152 % 128 + 128)
          ∷ (l / 16384 % 128 + 128)
          ∷ (l / 128 % 128 + 128)
          ∷ (l % 128 + 128)
          ∷ [])
      × (encode_backlen_bytes l ≡ 5)
unfolding encode_backlen encode_backlen_bytes
five_format l h0 h1 =
    ground (arith, more_lem l, more_lem (l / 128), more_lem (l / 16384), more_lem (l / 2097152))

module _ (pre post : List ℕ) (l : ℕ) where
  abbrev Reads : Type 0
  Reads =
      decode_backlen (pre ++ (encode_backlen l ++ post)) (length pre + encode_backlen_bytes l - 1)
      ≡ l

  one_reads : l < 128 → Reads
  one_reads h0 =
      let f = one_format l h0 in
      rw (f.0, f.1)
        (one_bytes _ (l) _ (byte_at pre _ 0 _ (omega arith)) (omega arith) ∙ omega arith)

  two_reads : 127 < l → l < 16383 → Reads
  two_reads h0 h1 =
      let f = two_format l h0 h1 in
      rw (f.0, f.1)
        (two_bytes _ (l % 128) (l / 128) _ (byte_at pre _ 1 _ (omega arith))
            (byte_at pre _ 0 _ (omega arith)) (omega arith) (omega arith)
          ∙ omega arith)

  three_reads : 16382 < l → l < 2097151 → Reads
  three_reads h0 h1 =
      let f = three_format l h0 h1 in
      rw (f.0, f.1)
        (three_bytes _ (l % 128) (l / 128 % 128) (l / 16384) _ (byte_at pre _ 2 _ (omega arith))
            (byte_at pre _ 1 _ (omega arith)) (byte_at pre _ 0 _ (omega arith)) (omega arith)
            (omega arith) (omega arith)
          ∙ omega arith)

  four_reads : 2097150 < l → l < 268435455 → Reads
  four_reads h0 h1 =
      let f = four_format l h0 h1 in
      rw (f.0, f.1)
        (four_bytes _ (l % 128) (l / 128 % 128) (l / 16384 % 128) (l / 2097152) _
            (byte_at pre _ 3 _ (omega arith)) (byte_at pre _ 2 _ (omega arith))
            (byte_at pre _ 1 _ (omega arith)) (byte_at pre _ 0 _ (omega arith)) (omega arith)
            (omega arith) (omega arith) (omega arith)
          ∙ omega arith)

  five_reads : 268435454 < l → l < 2 ^ 35 → Reads
  five_reads h0 h1 =
      let f = five_format l h0 h1 in
      rw (f.0, f.1)
        (five_bytes _ (l % 128) (l / 128 % 128) (l / 16384 % 128) (l / 2097152 % 128)
            (l / 268435456) _ (byte_at pre _ 4 _ (omega arith)) (byte_at pre _ 3 _ (omega arith))
            (byte_at pre _ 2 _ (omega arith)) (byte_at pre _ 1 _ (omega arith))
            (byte_at pre _ 0 _ (omega arith)) (omega arith) (omega arith) (omega arith)
            (omega arith) (omega arith)
          ∙ omega arith)

-- The encoded length of a number below 2 ^ 35, anywhere in a buffer, is read back from its last
-- byte as that number.
pub decode_backlen-encode_backlen :
    (pre post : List ℕ) (l : ℕ)
    → l < 2 ^ 35
    → decode_backlen (pre ++ (encode_backlen l ++ post)) (length pre + encode_backlen_bytes l - 1)
      ≡ l
decode_backlen-encode_backlen pre post l h = elim (dec_lt l 128) [
  | yes a ↦ one_reads pre post l a
  | no a ↦ elim (dec_lt l 16383) [
    | yes b ↦ two_reads pre post l (omega arith) b
    | no b ↦ elim (dec_lt l 2097151) [
      | yes c ↦ three_reads pre post l (omega arith) c
      | no c ↦ elim (dec_lt l 268435455) [
        | yes d ↦ four_reads pre post l (omega arith) d
        | no d ↦ five_reads pre post l (omega arith) h
      ]
    ]
  ]
]
