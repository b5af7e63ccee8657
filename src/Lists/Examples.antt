-- ===== src/Lists/Examples.antt =====
-- The list commands on the block that holds "ab" and "7".
use carrotdb.Base.{ℕ, ◌≡◌, refl, List, [], ◌∷◌, some}
use carrotdb.Base.Int.{pos, negsuc, ◌+ℤ◌}
use carrotdb.Listpack.Insert.{returns}
use carrotdb.Listpack.Insert.Content.{IsListpack}
use carrotdb.Listpack.Examples.{
  granted, ab, seven, texts, block, block-IsListpack, ab-IsWalkable, texts-IsWalkable,
}
use carrotdb.Lists.Pop.{lpop_loop}
use carrotdb.Lists.Laws.{lpop_loop_lem}
use carrotdb.Lists.Range.{lrange}
use carrotdb.Lists.RangeLaws.{lrange_lem}

lpop_loop_lem_example :
    (lp' : List ℕ) × (lpop_loop granted 1 (some block) [] ≡ returns (some lp', ab ∷ []))
    × IsListpack lp' (seven ∷ [])
lpop_loop_lem_example =
    lpop_loop_lem granted 1 block texts [] block-IsListpack (ab-IsWalkable, tt) (λ m. refl)

lrange_lem_example :
    (lp' : List ℕ) × (lrange block (negsuc 1) (pos 5) ≡ some (returns (texts, lp')))
    × IsListpack lp' texts
unfolding ◌+ℤ◌
lrange_lem_example = lrange_lem block texts (negsuc 1) (pos 5) block-IsListpack texts-IsWalkable
