-- ===== src/Stream/Examples.antt =====
-- The theorems of the streams on a new stream and on small ids.
use carrotdb.Base.{ℕ, ◌≡◌, true, List, [], ◌∷◌, none, some, arith}
use carrotdb.Base.Bytes.{less}
use carrotdb.Stream.Id.{StreamId, to_binary, from_binary, is_greater, to_string}
use carrotdb.Stream.IdLaws.{less-to_binary, from_binary-to_binary}
use carrotdb.Stream.Entries.{Stream, stream_insert, from_string, from_string_for_search}
use carrotdb.Stream.Growth.{
  Outcome, Request, accepted_ids, Ascending, stream_insert-Outcome, accepted_ids-Ascending,
}
use carrotdb.Stream.Text.{from_string-to_string}

abbrev zero_id : StreamId
zero_id = record { ms = 0; seq = 0 }

abbrev id_a : StreamId
id_a = record { ms = 1; seq = 300 }

abbrev id_b : StreamId
id_b = record { ms = 256; seq = 0 }

abbrev new_stream : Stream
new_stream = record { radix_tree = none; last_insert_stream_id = zero_id }

abbrev one_star : List ℕ
one_star = b'1' ∷ b'-' ∷ b'*' ∷ []

abbrev requests : List Request
requests = (5, one_star, b'x' ∷ []) ∷ (5, one_star, b'y' ∷ []) ∷ (5, [], []) ∷ []

accepted_ids-Ascending_example : Ascending zero_id (accepted_ids new_stream requests)
accepted_ids-Ascending_example = accepted_ids-Ascending new_stream requests

stream_insert-Outcome_example : Outcome new_stream (stream_insert new_stream 5 one_star (b'x' ∷ []))
stream_insert-Outcome_example = stream_insert-Outcome new_stream 5 one_star (b'x' ∷ [])

less-to_binary_example : less (to_binary id_a) (to_binary id_b) ≡ is_greater id_b id_a
less-to_binary_example =
    less-to_binary id_a id_b (omega arith, omega arith) (omega arith, omega arith)

from_binary-to_binary_example : from_binary (to_binary id_a) ≡ some id_a
from_binary-to_binary_example = from_binary-to_binary id_a (omega arith, omega arith)

from_string-to_string_example :
    (from_string zero_id 5 (to_string id_a) ≡ some id_a)
    × (from_string_for_search (to_string id_a) true ≡ some id_a)
from_string-to_string_example = from_string-to_string id_a zero_id 5 true (omega arith, omega arith)
