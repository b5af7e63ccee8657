-- ===== src/Stream/Id.antt =====
-- stream.h: StreamID, its binary key, its order and its text.
use carrotdb.Base.{
  ℕ, ◌+◌, ◌^◌, ◌<◌, bit_and, bit_or, Bool, true, false, List, [], ◌∷◌, ◌++◌, Option, none, some,
  length, get_or, ltb, leb, if◌then◌else◌,
}
use carrotdb.Base.Bits.{◌<<◌, ◌>>◌}
use carrotdb.Base.Decimal.{print_u64}

pub record StreamId : Type 0 where
  pub ms : ℕ
  pub seq : ℕ

-- Both numbers are held in 64 bits.
abbrev pub IsU64 : StreamId → Type 0
IsU64 s = (s.ms < 2 ^ 64) × (s.seq < 2 ^ 64)

-- The eight bytes of a number, the most significant first.
unfoldable pub big_endian : ℕ → List ℕ
big_endian n =
    bit_and (n >> 56) 0xFF
    ∷ bit_and (n >> 48) 0xFF
    ∷ bit_and (n >> 40) 0xFF
    ∷ bit_and (n >> 32) 0xFF
    ∷ bit_and (n >> 24) 0xFF
    ∷ bit_and (n >> 16) 0xFF
    ∷ bit_and (n >> 8) 0xFF
    ∷ bit_and n 0xFF
    ∷ []

unfoldable pub to_binary : StreamId → List ℕ
to_binary s = big_endian s.ms ++ big_endian s.seq

-- The number in eight bytes from an index.
unfoldable pub read_big_endian : List ℕ → ℕ → ℕ
read_big_endian string i =
    bit_or
      (bit_or
        (bit_or
          (bit_or
            (bit_or
              (bit_or (bit_or (get_or string i 0 << 56) (get_or string (i + 1) 0 << 48))
                (get_or string (i + 2) 0 << 40))
              (get_or string (i + 3) 0 << 32))
            (get_or string (i + 4) 0 << 24))
          (get_or string (i + 5) 0 << 16))
        (get_or string (i + 6) 0 << 8))
      (get_or string (i + 7) 0)

-- Nothing where the assertion on the size fails.
unfoldable pub from_binary : List ℕ → Option StreamId
from_binary string =
    if leb 16 (length string)
    then some (record { ms = read_big_endian string 0; seq = read_big_endian string 8 })
    else none

unfoldable pub is_greater : StreamId → StreamId → Bool
is_greater s other =
    if ltb other.ms s.ms then true else if ltb s.ms other.ms then false else ltb other.seq s.seq

unfoldable pub to_string : StreamId → List ℕ
to_string s = print_u64 s.ms ++ (b'-' ∷ print_u64 s.seq)
