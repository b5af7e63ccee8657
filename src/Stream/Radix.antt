-- ===== src/Stream/Radix.antt =====
-- radix-tree.h and radix-tree.cpp. The children of a node are an ordered map: a list of keys with
-- their nodes, in the order of `std::string`.
use carrotdb.Base.{
  ℕ, suc, Bool, true, false, ◌&&◌, not, List, [], ◌∷◌, ◌++◌, Option, none, some, length, take, drop,
  ltb, leb, ◌==◌, if◌then◌else◌,
}
use carrotdb.Base.Bytes.{less, same}

mutual
  pub data RadixTreeNode : Type 0 where
    node : List ℕ → Bool → Children → RadixTreeNode

  pub data Children : Type 0 where
    empty : Children
    child : List ℕ → RadixTreeNode → Children → Children

pub record RadixTree : Type 0 where
  pub root : Option RadixTreeNode

unfoldable pub matched_length : List ℕ → List ℕ → ℕ
matched_length [] existing_key = 0
matched_length (x ∷ new_key) [] = 0
matched_length (x ∷ new_key) (y ∷ existing_key) =
    let rest = matched_length new_key existing_key in if not (x == y) then 0 else suc rest

-- `children[key] = node`: the map's node at the key is replaced, or the key is put in its place.
unfoldable pub assign : Children → List ℕ → RadixTreeNode → Children
assign empty key n = child key n empty
assign (child k m cs) key n =
    let rest = assign cs key n in
    if same k key
    then child k n cs
    else if less key k
    then child key n (child k m cs)
    else child k m rest

-- `children.emplace(key, node)`: as above, but a key that is there keeps its node.
unfoldable pub emplace : Children → List ℕ → RadixTreeNode → Children
emplace empty key n = child key n empty
emplace (child k m cs) key n =
    let rest = emplace cs key n in
    if same k key
    then child k m cs
    else if less key k
    then child key n (child k m cs)
    else child k m rest

unfoldable pub erase : Children → List ℕ → Children
erase empty key = empty
erase (child k m cs) key = let rest = erase cs key in if same k key then cs else child k m rest

-- The child that shares most with the key, and how much; the loop stops at a child that shares all.
unfoldable pub best_match :
    Children → List ℕ → ℕ → Option (List ℕ × RadixTreeNode) → ℕ × Option (List ℕ × RadixTreeNode)
best_match empty key best best_it = (best, best_it)
best_match (child k m cs) key best best_it =
    let len = matched_length key k in
    let better = best_match cs key len (some (k, m)) in
    let rest = best_match cs key best best_it in
    if ltb best len then if len == length key then (len, some (k, m)) else better else rest

unfoldable pub leaf : List ℕ → RadixTreeNode
leaf value = node value true empty

-- The node that stands between: the old child below it, and the value in it or in a new leaf.
unfoldable pub split_node : List ℕ → RadixTreeNode → ℕ → List ℕ → List ℕ → RadixTreeNode
split_node old_key old_child len key value =
    let old = emplace empty (drop len old_key) old_child in
    if len == length key
    then node value true old
    else node [] false (emplace old (drop len key) (leaf value))

-- The children after the split of one of them.
unfoldable pub split_child : Children → List ℕ → RadixTreeNode → ℕ → List ℕ → List ℕ → Children
split_child cs old_key old_child len key value =
    emplace (erase cs old_key) (take len key) (split_node old_key old_child len key value)

-- What the loop over the children found: nothing shared, a whole key, or a part of a key.
pub data Best : Type 0 where
  no_match : Best
  whole : List ℕ → Best
  part : List ℕ → RadixTreeNode → ℕ → Best

unfoldable pub found : ℕ × Option (List ℕ × RadixTreeNode) → Best
found (len, none) = no_match
found (len, some (k, m)) =
    if len == 0 then no_match else if len == length k then whole k else part k m len

-- `insert_below` goes to the child with a given key.
unfoldable mutual
  pub insert_impl : RadixTreeNode → List ℕ → List ℕ → RadixTreeNode
  insert_impl (node text present cs) [] value = node value true cs
  insert_impl (node text present cs) (x ∷ key) value =
      elim (found (best_match cs (x ∷ key) 0 none)) [
        | no_match ↦ node text present (assign cs (x ∷ key) (leaf value))
        | whole k ↦ node text present (insert_below cs k (drop (length k) (x ∷ key)) value)
        | part k m len ↦ node text present (split_child cs k m len (x ∷ key) value)
      ]

  pub insert_below : Children → List ℕ → List ℕ → List ℕ → Children
  insert_below empty best key value = empty
  insert_below (child k m cs) best key value = elim (same k best) [
    | true ↦ child k (insert_impl m key value) cs
    | false ↦ child k m (insert_below cs best key value)
  ]

abbrev pub new_node : RadixTreeNode
new_node = node [] false empty

-- The root, made where there is none.
unfoldable pub root_or_new : Option RadixTreeNode → RadixTreeNode
root_or_new none = new_node
root_or_new (some n) = n

unfoldable pub insert : RadixTree → List ℕ → List ℕ → RadixTree
insert tree key value = record { root = some (insert_impl (root_or_new tree.root) key value) }

-- `search_children` is the loop over the children: the first whose whole key is a prefix is entered.
unfoldable mutual
  pub search_node : RadixTreeNode → List ℕ → List ℕ
  search_node (node text present cs) [] = if present then text else []
  search_node (node text present cs) (x ∷ remaining) = search_children cs (x ∷ remaining)

  pub search_children : Children → List ℕ → List ℕ
  search_children empty remaining = []
  search_children (child k m cs) remaining = elim (matched_length remaining k == length k) [
    | true ↦ search_node m (drop (matched_length remaining k) remaining)
    | false ↦ search_children cs remaining
  ]

unfoldable pub search_tree : RadixTree → List ℕ → List ℕ
search_tree tree key = elim tree.root [ none ↦ [] | some n ↦ search_node n key ]

abbrev pub Entries : Type 0
Entries = List (List ℕ × List ℕ)

-- The node's own entry, where it lies in the range.
unfoldable pub own_entry : List ℕ → List ℕ → Bool → List ℕ → List ℕ → Bool → Entries
own_entry start_key end_key is_exclusive current_key text present =
    if present && not (less current_key start_key) && not (less end_key current_key)
    then (if is_exclusive && same current_key start_key then [] else (current_key, text) ∷ [])
    else []

-- Whether the start key goes on below a key.
unfoldable pub is_prefix_still_exists : List ℕ → List ℕ → Bool
is_prefix_still_exists start_key new_key =
    leb (length new_key) (length start_key) && same (take (length new_key) start_key) new_key

-- The result so far comes last and grows at its end. `range_children` is the loop over the children,
-- which a key above the end of the range leaves.
unfoldable mutual
  pub range_node : List ℕ → List ℕ → Bool → RadixTreeNode → List ℕ → Entries → Entries
  range_node start_key end_key is_exclusive (node text present cs) current_key result =
      range_children start_key end_key is_exclusive cs current_key
        (result ++ own_entry start_key end_key is_exclusive current_key text present)

  pub range_children : List ℕ → List ℕ → Bool → Children → List ℕ → Entries → Entries
  range_children start_key end_key is_exclusive empty current_key result = result
  range_children start_key end_key is_exclusive (child k m cs) current_key result =
      elim (less end_key (current_key ++ k)) [
        | true ↦ result
        | false ↦
            elim (not (less start_key (current_key ++ k))
              && not (is_prefix_still_exists start_key (current_key ++ k))) [
                | true ↦ range_children start_key end_key is_exclusive cs current_key result
                | false ↦
                    range_children start_key end_key is_exclusive cs current_key
                      (range_node start_key end_key is_exclusive m (current_key ++ k) result)
              ]
      ]

unfoldable pub range_search : RadixTree → List ℕ → List ℕ → Bool → Entries
range_search tree start_key end_key is_exclusive = elim tree.root [
  | none ↦ []
  | some n ↦ range_node start_key end_key is_exclusive n [] []
]
