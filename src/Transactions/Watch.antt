-- ===== src/Transactions/Watch.antt =====
-- DB::mark_watching_clients_dirty of db/db.cpp.
use carrotdb.Base.{ℕ, true, List, [], ◌∷◌, if◌then◌else◌, ◌==◌}
use carrotdb.Base.Bytes.{same}
use carrotdb.Commands.Names.{Text}
use carrotdb.Transactions.{Client}

-- The clients of a key, by descriptor.
unfoldable pub watchers : Text → List (Text × List ℕ) → List ℕ
watchers key [] = []
watchers key ((k, fds) ∷ rest) =
    let others = watchers key rest in if same k key then fds else others

-- The flag of one client, where its descriptor is among them.
unfoldable pub mark_dirty : {D : Type 0} → List ℕ → Client D → Client D
mark_dirty [] c = c
mark_dirty (fd ∷ fds) c =
    let rest = mark_dirty fds c in if fd == c.fd then record c { dirty = true } else rest

unfoldable pub mark_watching_clients_dirty :
    {D : Type 0} → Text → List (Text × List ℕ) → List (Client D) → List (Client D)
mark_watching_clients_dirty key watching [] = []
mark_watching_clients_dirty key watching (c ∷ cs) =
    mark_dirty (watchers key watching) c ∷ mark_watching_clients_dirty key watching cs
