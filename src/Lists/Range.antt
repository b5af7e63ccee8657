-- ===== src/Lists/Range.antt =====
-- handle_lrange and handle_llen on a key that holds a list.
use carrotdb.Base.{
  ℕ, zero, suc, ◌+◌, ◌-◌, List, [], ◌∷◌, ◌++◌, Option, none, some, drop, leb, if◌then◌else◌,
}
use carrotdb.Base.Int.{ℤ, pos, negsuc, ◌+ℤ◌, pos_part}
use carrotdb.Listpack.Element.{element_text}
use carrotdb.Listpack.Insert.{Outcome, returns, aborts}
use carrotdb.Listpack.Walk.{lp_seek, lp_length}

-- A negative index counts from the right.
abbrev pub from_left : ℕ → ℤ → ℤ
from_left list_length (pos n) = pos n
from_left list_length (negsuc n) = pos list_length +ℤ negsuc n

-- The two ends after the clamps; none for an empty answer.
unfoldable pub clamp : ℕ → ℤ → ℤ → Option (ℕ × ℕ)
clamp list_length start_index (negsuc n) = none
clamp list_length start_index (pos end_index) =
    if leb list_length (pos_part start_index)
    then none
    else some
        (pos_part start_index, if leb list_length end_index then list_length - 1 else end_index)

-- So many rounds of the loop; a round that finds no element leaves it.
unfoldable pub lrange_loop : ℕ → List ℕ → ℕ → List (List ℕ) → Outcome (List (List ℕ))
lrange_loop zero lp index result = returns result
lrange_loop (suc rounds) lp index result = elim (lp_seek lp (pos index)) [
  | aborts ↦ aborts
  | returns none ↦ returns result
  | returns (some p) ↦ lrange_loop rounds lp (index + 1) (result ++ (element_text (drop p lp) ∷ []))
]

unfoldable pub lrange_between : List ℕ → Option (ℕ × ℕ) → Outcome (List (List ℕ))
lrange_between lp none = returns []
lrange_between lp (some (start_index, end_index)) =
    lrange_loop (end_index + 1 - start_index) lp start_index []

-- The values of the answer, and the listpack after lpLength, which may store the count.
unfoldable pub with_listpack : List ℕ → Outcome (List (List ℕ)) → Outcome (List (List ℕ) × List ℕ)
with_listpack lp aborts = aborts
with_listpack lp (returns result) = returns (result, lp)

unfoldable pub lrange_known :
    ℤ → ℤ → Option (Outcome (ℕ × List ℕ)) → Option (Outcome (List (List ℕ) × List ℕ))
lrange_known start stop none = none
lrange_known start stop (some aborts) = some aborts
lrange_known start stop (some (returns (list_length, lp))) = some (
    with_listpack lp (
      lrange_between lp
        (clamp list_length (from_left list_length start) (from_left list_length stop))))

unfoldable pub lrange : List ℕ → ℤ → ℤ → Option (Outcome (List (List ℕ) × List ℕ))
lrange lp start stop = lrange_known start stop (lp_length lp)
