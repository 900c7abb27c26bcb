-- ===== src/Dashboard/Coherence/Refresh.antt =====
-- Every change of the server reaches the cache, but for the listed ones.
use flag_it.Common.{◌≡◌, ◌⊎◌, List, [], ◌∷◌, ◌++◌}
use flag_it.Dashboard.Hooks.{Effect, invalidate, set_data, clear, sign_in, sign_out}
use flag_it.Dashboard.Hooks.Keys.{Key}
use flag_it.Dashboard.Coherence.Misses.{Misses}
use flag_it.Sdk.Json.{Json}

-- One key begins with another, as `invalidateQueries` compares them.
abbrev pub IsPrefix : Key → Key → Type 0
IsPrefix k j = (rest : Key) × (k ++ rest ≡ j)

module _ {N : Type 0} where
  -- The effect invalidates, replaces or drops the data under a key.
  abbrev pub IsRenewing : Effect N → Key → Type 0
  IsRenewing (invalidate k) j = IsPrefix k j
  IsRenewing (set_data k v) j = k ≡ j
  IsRenewing clear j = Unit
  IsRenewing (sign_in token) j = ⊥
  IsRenewing sign_out j = ⊥

  abbrev pub AreRenewing : List (Effect N) → Key → Type 0
  AreRenewing [] j = ⊥
  AreRenewing (e ∷ es) j = IsRenewing e j ⊎ AreRenewing es j
