-- ===== src/Commands/Parse/Geo.antt =====
-- The commands of the geographic index.
use carrotdb.Base.{
  ℕ, zero, suc, ◌-◌, Bool, true, false, ◌||◌, List, [], ◌∷◌, Option, none, some, if◌then◌else◌,
}
use carrotdb.Commands.Names.{Text}
use carrotdb.Commands.Doubles.{Doubles}
use carrotdb.Commands.Geohash.{GeoHashRange, geo_hash_encode}
use carrotdb.Commands.Command.{
  Command, unknow_command, geo_add_command, geo_pos_command, geo_dist_command, geo_search_command,
}
use carrotdb.Commands.Read.{next_bulk, required, collect}
use carrotdb.Commands.Parse.Lists.{made}

module _ {D : Type 0} where
  unfoldable pub parse_geo_pos : List ℕ → ℕ → ℕ → Command D × ℕ
  parse_geo_pos buffer total at =
      required (next_bulk buffer at)
        (λ key at1. made (geo_pos_command key) (collect (total - 1) buffer at1 []))

  unfoldable pub parse_geo_dist : List ℕ → ℕ → Command D × ℕ
  parse_geo_dist buffer at = required (next_bulk buffer at) (λ key at1.
      required (next_bulk buffer at1) (λ member1 at2.
        required (next_bulk buffer at2)
          (λ member2 at3. (geo_dist_command key member1 member2, at3))))

-- The fields of GeoAddCommand but the key.
pub record Position (D : Type 0) : Type 0 where
  pub longitude : D
  pub latitude : D
  pub score : D
  pub member : Text
  pub invalid : Bool

unfoldable pub bits_of : Option ℕ → ℕ
bits_of none = 0
bits_of (some bits) = bits

module _ {D : Type 0} ⦃f : Doubles D⦄ where
  abbrev zero_double : D
  zero_double = f.literal (b'0' ∷ [])

  abbrev lat_range : GeoHashRange D
  lat_range = record {
    min_value =
        f.literal
          (b'-' ∷ b'8' ∷ b'5' ∷ b'.' ∷ b'0' ∷ b'5' ∷ b'1' ∷ b'1' ∷ b'2' ∷ b'8' ∷ b'7' ∷ b'8' ∷ []);
    max_value =
        f.literal (b'8' ∷ b'5' ∷ b'.' ∷ b'0' ∷ b'5' ∷ b'1' ∷ b'1' ∷ b'2' ∷ b'8' ∷ b'7' ∷ b'8' ∷ []);
  }

  abbrev lon_range : GeoHashRange D
  lon_range = record {
    min_value = f.literal (b'-' ∷ b'1' ∷ b'8' ∷ b'0' ∷ b'.' ∷ b'0' ∷ []);
    max_value = f.literal (b'1' ∷ b'8' ∷ b'0' ∷ b'.' ∷ b'0' ∷ []);
  }

  unfoldable pub out_of_range : D → D → Bool
  out_of_range longitude latitude =
      (f.is_less longitude lon_range.min_value || f.is_less lon_range.max_value longitude)
      || (f.is_less latitude lat_range.min_value || f.is_less lat_range.max_value latitude)

  -- A coordinate keeps its old value where `stod` throws.
  unfoldable pub coordinate : D → Option D → D
  coordinate old none = old
  coordinate old (some d) = d

  unfoldable pub threw : Option D → Bool
  threw none = true
  threw (some d) = false

  -- The position after one more triple of arguments. An invalid one stays invalid.
  unfoldable pub next_position : Position D → Text → Text → Text → Position D
  next_position p lon lat member =
      let longitude = coordinate p.longitude (f.stod lon) in
      let latitude = coordinate p.latitude (f.stod lat) in
      let invalid =
        (p.invalid || threw (f.stod lon) || threw (f.stod lat))
        || out_of_range longitude latitude in
      let bits = bits_of (geo_hash_encode lat_range lon_range longitude latitude 26) in
      record {
        longitude = longitude;
        latitude = latitude;
        score = if invalid then p.score else f.of_uint64 bits;
        member = member;
        invalid = invalid;
      }

  unfoldable pub triple : Position D → Option Text → Option Text → Option Text → Option (Position D)
  triple p (some lon) (some lat) (some member) = some (next_position p lon lat member)
  triple p (some lon) (some lat) none = none
  triple p (some lon) none member = none
  triple p none lat member = none

  unfoldable pub positions : ℕ → List ℕ → ℕ → Position D → Position D × ℕ
  positions (suc (suc (suc n))) buffer at p =
      let lon = next_bulk buffer at in
      let lat = next_bulk buffer lon.1 in
      let member = next_bulk buffer lat.1 in
      elim (triple p lon.0 lat.0 member.0) [
        | none ↦ (p, member.1)
        | some q ↦ positions n buffer member.1 q
      ]
  positions zero buffer at p = (p, at)
  positions (suc zero) buffer at p = (p, at)
  positions (suc (suc zero)) buffer at p = (p, at)

  unfoldable pub geo_add_of : Text → Position D × ℕ → Command D × ℕ
  geo_add_of key (p, at) =
      (geo_add_command key p.longitude p.latitude p.score p.member p.invalid, at)

  unfoldable pub parse_geo_add : List ℕ → ℕ → ℕ → Command D × ℕ
  parse_geo_add buffer total at = required (next_bulk buffer at) (λ key at1. geo_add_of key (
      positions (total - 1) buffer at1 (record {
        longitude = zero_double;
        latitude = zero_double;
        score = zero_double;
        member = [];
        invalid = false;
      })))

  unfoldable pub geo_search_of : Text → Option D → Option D → Option D → Command D
  geo_search_of key (some lon) (some lat) (some radius) = geo_search_command key lon lat radius
  geo_search_of key (some lon) (some lat) none = unknow_command
  geo_search_of key (some lon) none radius = unknow_command
  geo_search_of key none lat radius = unknow_command

  -- Two words of the syntax are read and not looked at, and so is the unit at the end.
  unfoldable pub parse_geo_search : List ℕ → ℕ → Command D × ℕ
  parse_geo_search buffer at = required (next_bulk buffer at) (λ key at1.
      required (next_bulk buffer at1) (λ from at2. required (next_bulk buffer at2) (λ lon at3.
        required (next_bulk buffer at3) (λ lat at4. required (next_bulk buffer at4) (λ by at5.
          required (next_bulk buffer at5) (λ radius at6. (
            geo_search_of key (f.stod lon) (f.stod lat) (f.stod radius),
            (next_bulk buffer at6).1,
          )))))))
