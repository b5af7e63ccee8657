-- ===== src/Listpack/Header.antt =====
-- The six header bytes of src/listpack.h, lpNew and lpSafeToAdd of src/listpack.cpp.
use carrotdb.Base.{
  ℕ, ◌+◌, ◌*◌, ◌/◌, ◌%◌, ◌^◌, ◌<◌, ◌≡◌, Bool, true, false, bit_and, bit_or, List, ◌∷◌, set,
  replicate, arith, ltb, if◌then◌else◌,
}
use carrotdb.Base.Bits.{◌<<◌, ◌>>◌, bit_or-shl, bit_and_low}
use carrotdb.Listpack.Element.{byte, lp_eof}
use carrotdb.Listpack.Memory.{uninit}

abbrev pub lp_header_size : ℕ
lp_header_size = 6

abbrev pub lp_hdr_numele_unknown : ℕ
lp_hdr_numele_unknown = 0xFFFF

abbrev pub listpack_max_safety_size : ℕ
listpack_max_safety_size = 2 ^ 30

unfoldable pub set_total_bytes : List ℕ → ℕ → List ℕ
set_total_bytes lp capacity =
    set
      (set (set (set lp 0 (bit_and capacity 0xff)) 1 (bit_and (capacity >> 8) 0xff)) 2
        (bit_and (capacity >> 16) 0xff))
      3 (bit_and (capacity >> 24) 0xff)

unfoldable pub set_num_elements : List ℕ → ℕ → List ℕ
set_num_elements lp nums = set (set lp 4 (bit_and nums 0xff)) 5 (bit_and (nums >> 8) 0xff)

unfoldable pub get_total_bytes : List ℕ → ℕ
get_total_bytes lp =
    bit_or
      (bit_or (bit_or (bit_and (byte lp 0) 0xff << 0) (bit_and (byte lp 1) 0xff << 8))
        (bit_and (byte lp 2) 0xff << 16))
      (bit_and (byte lp 3) 0xff << 24)

unfoldable pub get_total_num_elements : List ℕ → ℕ
get_total_num_elements lp = bit_or (bit_and (byte lp 4) 0xff << 0) (bit_and (byte lp 5) 0xff << 8)

-- The block that lpNew returns when the allocation succeeds.
unfoldable pub lp_new : ℕ → List ℕ
lp_new capacity =
    let size = if ltb 7 capacity then capacity else 7 in
    set (set_num_elements (set_total_bytes (replicate size uninit) (lp_header_size + 1)) 0)
      lp_header_size lp_eof

unfoldable pub safe_to_add : List ℕ → ℕ → Bool
safe_to_add lp add = if ltb listpack_max_safety_size (get_total_bytes lp + add) then false else true

-- The header of a block with `n` bytes in use and the element count `c`.
abbrev pub header : ℕ → ℕ → List ℕ → List ℕ
header n c rest =
    (n % 256)
    ∷ (n / 2 ^ 8 % 256)
    ∷ (n / 2 ^ 16 % 256)
    ∷ (n / 2 ^ 24 % 256)
    ∷ (c % 256)
    ∷ (c / 2 ^ 8 % 256)
    ∷ rest

pub get_total_bytes-header :
    (n c : ℕ) (rest : List ℕ) → n < 2 ^ 32 → get_total_bytes (header n c rest) ≡ n
unfolding get_total_bytes
get_total_bytes-header n c rest h =
    rw
      (
        bit_and_low 8 (n % 256),
        bit_and_low 8 (n / 2 ^ 8 % 256),
        bit_and_low 8 (n / 2 ^ 16 % 256),
        bit_and_low 8 (n / 2 ^ 24 % 256),
        bit_or-shl 8 (n % 256 % 256 * 1) (n / 2 ^ 8 % 256 % 256) (omega arith),
        bit_or-shl 16 (n % 256 % 256 * 1 + n / 2 ^ 8 % 256 % 256 * 2 ^ 8) (n / 2 ^ 16 % 256 % 256)
            (omega arith),
        bit_or-shl 24
            (n % 256 % 256 * 1 + n / 2 ^ 8 % 256 % 256 * 2 ^ 8 + n / 2 ^ 16 % 256 % 256 * 2 ^ 16)
            (n / 2 ^ 24 % 256 % 256) (omega arith),
      )
      (omega arith)

pub get_total_num_elements-header :
    (n c : ℕ) (rest : List ℕ) → c < 2 ^ 16 → get_total_num_elements (header n c rest) ≡ c
unfolding get_total_num_elements
get_total_num_elements-header n c rest h =
    rw
      (
        bit_and_low 8 (c % 256),
        bit_and_low 8 (c / 2 ^ 8 % 256),
        bit_or-shl 8 (c % 256 % 256 * 1) (c / 2 ^ 8 % 256 % 256) (omega arith),
      )
      (omega arith)

pub set_total_bytes-header :
    (n c m : ℕ) (rest : List ℕ) → set_total_bytes (header n c rest) m ≡ header m c rest
unfolding set_total_bytes
set_total_bytes-header n c m rest = rw (
  bit_and_low 8 m,
  bit_and_low 8 (m / 2 ^ 8),
  bit_and_low 8 (m / 2 ^ 16),
  bit_and_low 8 (m / 2 ^ 24),
)

pub set_num_elements-header :
    (n c m : ℕ) (rest : List ℕ) → set_num_elements (header n c rest) m ≡ header n m rest
unfolding set_num_elements
set_num_elements-header n c m rest = rw (bit_and_low 8 m, bit_and_low 8 (m / 2 ^ 8))
