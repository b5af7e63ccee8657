-- ===== src/Commands/Geohash.antt =====
-- geohash.cpp: the encoding of a position, which GEOADD stores as the score of its member.
use carrotdb.Base.{ℕ, ◌%◌, ◌^◌, bit_and, bit_or, ◌||◌, Option, none, some, if◌then◌else◌}
use carrotdb.Base.Bits.{◌<<◌}
use carrotdb.Commands.Doubles.{Doubles}

-- `(x | (x << s)) & b` in 64 bits.
unfoldable pub spread : ℕ → ℕ → ℕ → ℕ
spread s b x = bit_and (bit_or x ((x << s) % 2 ^ 64)) b

unfoldable pub spread_all : ℕ → ℕ
spread_all x = spread 1 0x5555555555555555 (
    spread 2 0x3333333333333333
      (spread 4 0x0F0F0F0F0F0F0F0F (spread 8 0x00FF00FF00FF00FF (spread 16 0x0000FFFF0000FFFF x))))

unfoldable pub interleave_64 : ℕ → ℕ → ℕ
interleave_64 xlo ylo = bit_or (spread_all xlo) ((spread_all ylo << 1) % 2 ^ 64)

pub record GeoHashRange (D : Type 0) : Type 0 where
  pub min_value : D
  pub max_value : D

module _ {D : Type 0} ⦃f : Doubles D⦄ where
  -- The offset of a value in its range, scaled.
  unfoldable pub scaled_offset : GeoHashRange D → ℕ → D → D
  scaled_offset r step v =
      f.times (f.over (f.minus v r.min_value) (f.minus r.max_value r.min_value))
        (f.of_uint64 (1 << step))

  -- The interleaved bits; none for a position outside the ranges.
  unfoldable pub geo_hash_encode : GeoHashRange D → GeoHashRange D → D → D → ℕ → Option ℕ
  geo_hash_encode lat_range long_range longitude latitude step =
      if (f.is_less long_range.max_value longitude || f.is_less longitude long_range.min_value)
        || (f.is_less lat_range.max_value latitude || f.is_less latitude lat_range.min_value)
      then none
      else some (
          interleave_64 (f.to_uint32 (scaled_offset lat_range step latitude))
            (f.to_uint32 (scaled_offset long_range step longitude)))
