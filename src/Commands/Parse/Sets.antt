-- ===== src/Commands/Parse/Sets.antt =====
-- The commands on sorted sets, and those of the channels.
use carrotdb.Base.{ℕ, zero, suc, ◌-◌, List, [], ◌∷◌, ◌++◌, Option, none, some}
use carrotdb.Commands.Names.{Text}
use carrotdb.Commands.Doubles.{Doubles}
use carrotdb.Commands.Command.{
  Command, subscribe_command, publish_command, un_subscribe_command, zadd_command, zrank_command,
  zrange_command, zcard_command, zscore_command, zrem_command, auth_command,
}
use carrotdb.Commands.Read.{next_bulk, required, collect}
use carrotdb.Commands.Parse.Lists.{made, key_and_range, stod_or_zero}

module _ {D : Type 0} where
  unfoldable pub key_and_member : (Text → Text → Command D) → List ℕ → ℕ → Command D × ℕ
  key_and_member make buffer at =
      required (next_bulk buffer at)
        (λ key at1. required (next_bulk buffer at1) (λ member at2. (make key member, at2)))

  unfoldable pub parse_zrank : List ℕ → ℕ → Command D × ℕ
  parse_zrank = key_and_member zrank_command

  unfoldable pub parse_zscore : List ℕ → ℕ → Command D × ℕ
  parse_zscore = key_and_member zscore_command

  unfoldable pub parse_publish : List ℕ → ℕ → Command D × ℕ
  parse_publish = key_and_member publish_command

  unfoldable pub parse_auth : List ℕ → ℕ → Command D × ℕ
  parse_auth = key_and_member auth_command

  unfoldable pub parse_zrange : List ℕ → ℕ → Command D × ℕ
  parse_zrange = key_and_range zrange_command

  unfoldable pub parse_zcard : List ℕ → ℕ → Command D × ℕ
  parse_zcard buffer at = required (next_bulk buffer at) (λ key end. (zcard_command key, end))

  unfoldable pub parse_subscribe : List ℕ → ℕ → Command D × ℕ
  parse_subscribe buffer at =
      required (next_bulk buffer at) (λ channel end. (subscribe_command channel, end))

  unfoldable pub parse_unsubscribe : List ℕ → ℕ → Command D × ℕ
  parse_unsubscribe buffer at =
      required (next_bulk buffer at) (λ channel end. (un_subscribe_command channel, end))

  unfoldable pub parse_zrem : List ℕ → ℕ → ℕ → Command D × ℕ
  parse_zrem buffer total at =
      required (next_bulk buffer at)
        (λ key at1. made (zrem_command key) (collect (total - 1) buffer at1 []))

module _ {D : Type 0} ⦃f : Doubles D⦄ where
  -- A score and a member, both of which have to be there.
  unfoldable pub score_pair : Option Text → Option Text → Option (D × Text)
  score_pair none member = none
  score_pair (some score) none = none
  score_pair (some score) (some member) = some (stod_or_zero (f.stod score), member)

  -- The loop over the pairs; it ends at the first that is not there.
  unfoldable pub score_pairs : ℕ → List ℕ → ℕ → List (D × Text) → List (D × Text) × ℕ
  score_pairs zero buffer at out = (out, at)
  score_pairs (suc zero) buffer at out = (out, at)
  score_pairs (suc (suc n)) buffer at out =
      let score = next_bulk buffer at in
      let member = next_bulk buffer score.1 in
      elim (score_pair score.0 member.0) [
        | none ↦ (out, member.1)
        | some p ↦ score_pairs n buffer member.1 (out ++ (p ∷ []))
      ]

  unfoldable pub zadd_of : Text → List (D × Text) × ℕ → Command D × ℕ
  zadd_of key (score_members, at) = (zadd_command key score_members, at)

  unfoldable pub parse_zadd : List ℕ → ℕ → ℕ → Command D × ℕ
  parse_zadd buffer total at =
      required (next_bulk buffer at)
        (λ key at1. zadd_of key (score_pairs (total - 1) buffer at1 []))
