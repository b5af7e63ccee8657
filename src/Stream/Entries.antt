-- ===== src/Stream/Entries.antt =====
-- stream.cpp: the ids that XADD and XRANGE write, and the stream's two operations. The clock is an
-- argument.
use carrotdb.Base.{
  ℕ, ◌+◌, ◌-◌, ◌%◌, ◌^◌, Bool, true, false, ◌&&◌, not, List, [], ◌∷◌, ◌++◌, Option, none, some,
  ◌==◌, if◌then◌else◌,
}
use carrotdb.Base.Bytes.{same}
use carrotdb.Base.Decimal.{print_u64}
use carrotdb.Utils.{convert_positive_string_to_number}
use carrotdb.Stream.Id.{StreamId, to_binary, is_greater, to_string}
use carrotdb.Stream.Radix.{RadixTree, Entries, insert, range_search}

pub data StreamErrorType : Type 0 where
  ok : StreamErrorType
  invalid_id_format : StreamErrorType
  id_not_greater_than_last : StreamErrorType
  not_greater_than_zero : StreamErrorType

pub record StreamStatus : Type 0 where
  pub error : StreamErrorType
  pub streamid : List ℕ

pub record Stream : Type 0 where
  pub radix_tree : Option RadixTree
  pub last_insert_stream_id : StreamId

-- The text before and after the first '-'.
unfoldable pub split_dash : List ℕ → Option (List ℕ × List ℕ)
split_dash [] = none
split_dash (x ∷ str) =
    let rest = split_dash str in
    if x == b'-'
    then some ([], str)
    else elim rest [ none ↦ none | some (before, after) ↦ some (x ∷ before, after) ]

abbrev star : List ℕ
star = b'*' ∷ []

abbrev uint64_max : ℕ
uint64_max = 2 ^ 64 - 1

-- The id for `*`.
unfoldable pub id_now : StreamId → ℕ → StreamId
id_now last now = record { ms = now; seq = if last.ms == now then 1 else 0 }

-- The sequence number behind the '-', for a given number before it.
unfoldable pub seq_from : StreamId → ℕ → List ℕ → Option ℕ
seq_from last ms_val seq_str =
    if same seq_str star
    then some (if last.ms == ms_val then (last.seq + 1) % 2 ^ 64 else 0)
    else convert_positive_string_to_number seq_str

unfoldable pub id_from_parts : StreamId → List ℕ → List ℕ → Option StreamId
id_from_parts last ms_str seq_str = elim (convert_positive_string_to_number ms_str) [
  | none ↦ none
  | some ms_val ↦ elim (seq_from last ms_val seq_str) [
    | none ↦ none
    | some seq_val ↦ some (record { ms = ms_val; seq = seq_val })
  ]
]

unfoldable pub id_from_split : StreamId → Option (List ℕ × List ℕ) → Option StreamId
id_from_split last none = none
id_from_split last (some (ms_str, seq_str)) = id_from_parts last ms_str seq_str

unfoldable pub from_string : StreamId → ℕ → List ℕ → Option StreamId
from_string last now str =
    if same str star then some (id_now last now) else id_from_split last (split_dash str)

unfoldable pub tree_or_new : Option RadixTree → RadixTree
tree_or_new none = record { root = none }
tree_or_new (some tree) = tree

unfoldable pub failed : StreamErrorType → Stream → StreamStatus × Stream
failed e s = (record { error = e; streamid = [] }, s)

-- The entry of an id that passed the tests.
unfoldable pub store : Stream → StreamId → List ℕ → StreamStatus × Stream
store s sid value = (
  record { error = ok; streamid = to_string sid },
  record {
    radix_tree = some (insert (tree_or_new s.radix_tree) (to_binary sid) value);
    last_insert_stream_id = sid;
  },
)

unfoldable pub is_zero : StreamId → Bool
is_zero sid = (sid.ms == 0) && (sid.seq == 0)

unfoldable pub insert_id : Stream → Option StreamId → List ℕ → StreamStatus × Stream
insert_id s none value = failed invalid_id_format s
insert_id s (some sid) value =
    if is_zero sid
    then failed not_greater_than_zero s
    else if not (is_zero s.last_insert_stream_id) && not (is_greater sid s.last_insert_stream_id)
    then failed id_not_greater_than_last s
    else store s sid value

-- Stream::insert.
unfoldable pub stream_insert : Stream → ℕ → List ℕ → List ℕ → StreamStatus × Stream
stream_insert s now stream_id value =
    insert_id s (from_string s.last_insert_stream_id now stream_id) value

-- The text of a search key with a '-' in it.
unfoldable pub with_dash : List ℕ → Bool → List ℕ
with_dash str is_end_key = elim (split_dash str) [
  | some parts ↦ str
  | none ↦ str ++ (b'-' ∷ (if is_end_key then print_u64 uint64_max else b'0' ∷ []))
]

unfoldable pub search_id_from_parts : Option (List ℕ × List ℕ) → Option StreamId
search_id_from_parts none = none
search_id_from_parts (some (ms_str, seq_str)) = elim (convert_positive_string_to_number ms_str) [
  | none ↦ none
  | some ms_val ↦ elim (convert_positive_string_to_number seq_str) [
    | none ↦ none
    | some seq_val ↦ some (record { ms = ms_val; seq = seq_val })
  ]
]

unfoldable pub from_string_for_search : List ℕ → Bool → Option StreamId
from_string_for_search str is_end_key =
    if same str (b'-' ∷ [])
    then some (record { ms = 0; seq = 0 })
    else if same str (b'+' ∷ [])
    then some (record { ms = uint64_max; seq = uint64_max })
    else search_id_from_parts (split_dash (with_dash str is_end_key))

-- The entries between two ids; nothing where an id is refused or the stream has no tree.
unfoldable pub range_between : Stream → Option StreamId → Option StreamId → Bool → Option Entries
range_between s none stop is_exclusive = none
range_between s (some start) none is_exclusive = none
range_between s (some start) (some stop) is_exclusive = elim s.radix_tree [
  | none ↦ none
  | some tree ↦ some (range_search tree (to_binary start) (to_binary stop) is_exclusive)
]

unfoldable pub xrange_data : Stream → List ℕ → List ℕ → Bool → Option Entries
xrange_data s start_id end_id is_exclusive =
    range_between s (from_string_for_search start_id false) (from_string_for_search end_id true)
      is_exclusive
