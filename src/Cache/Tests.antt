-- ===== src/Cache/Tests.antt =====
-- The cache at concrete entries.
use sardoba_app_server.Prelude.{ℕ, ◌+◌, [], ◌∷◌}
use sardoba_app_server.Prelude.Dict.{Dict, lookup}
use sardoba_app_server.Cache.{InMemoryEntry, cached}
use sardoba_app_server.Cache.View.{IsCache, memory-IsCache}
use sardoba_app_server.Cache.Staleness.{Recent, IsRecent, cached-Recent}

abbrev menu : Dict (InMemoryEntry ℕ)
menu = ("catalog:list", record { value = 3; expires_at = 10 }) ∷ []

memory-IsCache_example : IsCache 5 menu
memory-IsCache_example = memory-IsCache 5 menu

abbrev twice : ℕ → ℕ
twice t = t + t

nothing-IsRecent : IsRecent twice 60 "catalog" "list" 5 []
unfolding lookup
nothing-IsRecent = record { seen = λ later v h e. cc }

cached-Recent_example :
    let (v, d') = cached {V = ℕ} 60 "catalog" 5 "list" 10 [] in
    Recent twice 60 "catalog" "list" 5 v × IsRecent twice 60 "catalog" "list" 5 d'
cached-Recent_example = cached-Recent twice 60 "catalog" "list" 5 [] nothing-IsRecent
