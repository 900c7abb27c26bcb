-- ===== src/Dashboard/Coherence/Client.antt =====
-- The cache of TanStack Query, a parameter: what the hooks use of a `QueryClient`, what its
-- documentation promises of that, and what the effects of a mutation leave under a key.
use flag_it.Common.{
  Bool, true, false, Option, none, some, List, [], ◌∷◌, ◌++◌, ◌&&◌, ◌≡◌, refl, ◌⊎◌, inl, inr,
  str_eq, eq_iff, eq_refl, if◌then◌else◌, arith, Bool-cases, sym,
}
use flag_it.Sdk.Json.{Json}
use flag_it.Dashboard.Hooks.{Effect, invalidate, set_data, clear, sign_in, sign_out}
use flag_it.Dashboard.Hooks.Keys.{Key}
use flag_it.Dashboard.Coherence.Refresh.{IsPrefix, AreRenewing}

abbrev pub is_prefix : Key → Key → Bool
is_prefix [] j = true
is_prefix (x ∷ k) [] = false
is_prefix (x ∷ k) (y ∷ j) = str_eq x y && is_prefix k j

abbrev pub is_same : Key → Key → Bool
is_same [] [] = true
is_same [] (y ∷ j) = false
is_same (x ∷ k) [] = false
is_same (x ∷ k) (y ∷ j) = str_eq x y && is_same k j

-- What is kept under a key: the data, and whether it was invalidated since it came.
pub record Entry (N : Type 0) : Type 0 where
  pub value : Json N
  pub is_invalidated : Bool

abbrev pub invalidated : {N : Type 0} → Option (Entry N) → Option (Entry N)
invalidated none = none
invalidated (some e) = some (record e { is_invalidated = true })

abbrev pub fresh : {N : Type 0} → Json N → Option (Entry N)
fresh v = some (record { value = v; is_invalidated = false })

pub record QueryClient (N : Type 0) : Type 1 where
  pub State : Type 0
  pub entry : State → Key → Option (Entry N)
  pub invalidate_queries : State → Key → State
  pub set_query_data : State → Key → Json N → State
  pub remove_all : State → State

-- A key invalidates the keys that begin with it; setting data counts as a fetch that has come back.
pub record IsLawful {N : Type 0} (C : QueryClient N) : Type 0 where
  pub entry-invalidate_queries :
      (s : C.State) (k j : Key)
      → C.entry (C.invalidate_queries s k) j
        ≡ (if is_prefix k j then invalidated (C.entry s j) else C.entry s j)
  pub entry-set_query_data :
      (s : C.State) (k j : Key) (v : Json N)
      → C.entry (C.set_query_data s k v) j ≡ (if is_same k j then fresh v else C.entry s j)
  pub entry-remove_all : (s : C.State) (j : Key) → C.entry (C.remove_all s) j ≡ none

pub is_same_iff : (k j : Key) → is_same k j ≡ true → k ≡ j
is_same_iff [] [] h = refl
is_same_iff [] (y ∷ j) h = ground arith
is_same_iff (x ∷ k) [] h = ground arith
is_same_iff (x ∷ k) (y ∷ j) h = ground (arith, eq_iff x y, is_same_iff k j)

pub is_same_refl : (k : Key) → is_same k k ≡ true
is_same_refl [] = refl
is_same_refl (x ∷ k) = rw (eq_refl x) (is_same_refl k)

is_prefix-append : (k rest : Key) → is_prefix k (k ++ rest) ≡ true
is_prefix-append [] rest = refl
is_prefix-append (x ∷ k) rest = rw (eq_refl x) (is_prefix-append k rest)

module _ {N : Type 0} where
  -- The data is not there, or is marked for a new fetch, or satisfies `P`.
  abbrev pub IsGood : (Json N → Type 0) → Option (Entry N) → Type 0
  IsGood P none = Unit
  IsGood P (some e) = (e.is_invalidated ≡ true) ⊎ P e.value

  -- What the effects set under a key satisfies `P`.
  abbrev pub AreSettingGood : (Json N → Type 0) → List (Effect N) → Key → Type 0
  AreSettingGood P [] j = Unit
  AreSettingGood P (set_data k v ∷ es) j = (k ≡ j → P v) × AreSettingGood P es j
  AreSettingGood P (invalidate k ∷ es) j = AreSettingGood P es j
  AreSettingGood P (clear ∷ es) j = AreSettingGood P es j
  AreSettingGood P (sign_in token ∷ es) j = AreSettingGood P es j
  AreSettingGood P (sign_out ∷ es) j = AreSettingGood P es j

  IsGood-invalidated : (P : Json N → Type 0) (o : Option (Entry N)) → IsGood P (invalidated o)
  IsGood-invalidated P none = tt
  IsGood-invalidated P (some e) = inl refl

  pub IsGood-weakened :
      (P Q : Json N → Type 0)
      → ((v : Json N) → P v → Q v)
      → (o : Option (Entry N)) → IsGood P o
      → IsGood Q o
  IsGood-weakened P Q h none good = tt
  IsGood-weakened P Q h (some e) (inl stale) = inl stale
  IsGood-weakened P Q h (some e) (inr right) = inr (h e.value right)

module _ {N : Type 0} (C : QueryClient N) where
  -- `onSuccess`, as far as the cache goes.
  abbrev pub perform : Effect N → C.State → C.State
  perform (invalidate k) s = C.invalidate_queries s k
  perform (set_data k v) s = C.set_query_data s k v
  perform clear s = C.remove_all s
  perform (sign_in token) s = s
  perform sign_out s = s

  unfoldable pub perform_all : List (Effect N) → C.State → C.State
  perform_all [] s = s
  perform_all (e ∷ es) s = perform_all es (perform e s)

module _ {N : Type 0} (C : QueryClient N) (L : IsLawful C) (P : Json N → Type 0) (j : Key) where
  invalidate-IsGood :
      (k : Key) (s : C.State)
      → IsGood P (C.entry s j)
      → IsGood P (C.entry (C.invalidate_queries s k) j)
  invalidate-IsGood k s h =
      rw (L.entry-invalidate_queries s k j) (elim (Bool-cases (is_prefix k j)) [
        | inl hit ↦ rw hit (IsGood-invalidated P (C.entry s j))
        | inr other ↦ rw other h
      ])

  pub set-IsGood :
      (k : Key) (v : Json N) (s : C.State)
      → (k ≡ j → P v)
      → IsGood P (C.entry s j)
      → IsGood P (C.entry (C.set_query_data s k v) j)
  set-IsGood k v s right h = rw (L.entry-set_query_data s k j v) (elim (Bool-cases (is_same k j)) [
    | inl hit ↦ rw hit (inr (right (is_same_iff k j hit)))
    | inr other ↦ rw other h
  ])

  -- Effects that set the right data keep an entry good.
  pub perform_all-IsGood :
      (es : List (Effect N)) (s : C.State)
      → AreSettingGood P es j
      → IsGood P (C.entry s j)
      → IsGood P (C.entry (perform_all C es s) j)
  unfolding perform_all
  perform_all-IsGood [] s sets h = h
  perform_all-IsGood (invalidate k ∷ es) s sets h =
      perform_all-IsGood es (C.invalidate_queries s k) sets (invalidate-IsGood k s h)
  perform_all-IsGood (set_data k v ∷ es) s sets h =
      perform_all-IsGood es (C.set_query_data s k v) sets.1 (set-IsGood k v s sets.0 h)
  perform_all-IsGood (clear ∷ es) s sets h =
      perform_all-IsGood es (C.remove_all s) sets (rw (L.entry-remove_all s j) tt)
  perform_all-IsGood (sign_in token ∷ es) s sets h = perform_all-IsGood es s sets h
  perform_all-IsGood (sign_out ∷ es) s sets h = perform_all-IsGood es s sets h

  invalidated-IsGood :
      (k : Key) (s : C.State) → IsPrefix k j → IsGood P (C.entry (C.invalidate_queries s k) j)
  invalidated-IsGood k s (rest, same) =
      rw (L.entry-invalidate_queries s k j, sym same, is_prefix-append k rest)
        (IsGood-invalidated P (C.entry s (k ++ rest)))

  -- Effects that renew the data under a key make the entry good, whatever it was.
  pub renewed-IsGood :
      (es : List (Effect N)) (s : C.State)
      → AreSettingGood P es j
      → AreRenewing es j
      → IsGood P (C.entry (perform_all C es s) j)
  unfolding perform_all
  renewed-IsGood [] s sets hit = elim hit [ ]
  renewed-IsGood (sign_in token ∷ es) s sets (inl hit) = elim hit [ ]
  renewed-IsGood (sign_out ∷ es) s sets (inl hit) = elim hit [ ]
  renewed-IsGood (invalidate k ∷ es) s sets (inl hit) =
      perform_all-IsGood es (C.invalidate_queries s k) sets (invalidated-IsGood k s hit)
  renewed-IsGood (set_data k v ∷ es) s sets (inl same) =
      perform_all-IsGood es (C.set_query_data s k v) sets.1
        (rw (L.entry-set_query_data s k j v, same, is_same_refl j) (inr (sets.0 same)))
  renewed-IsGood (clear ∷ es) s sets (inl hit) =
      perform_all-IsGood es (C.remove_all s) sets (rw (L.entry-remove_all s j) tt)
  renewed-IsGood (invalidate k ∷ es) s sets (inr rest) =
      renewed-IsGood es (C.invalidate_queries s k) sets rest
  renewed-IsGood (set_data k v ∷ es) s sets (inr rest) =
      renewed-IsGood es (C.set_query_data s k v) sets.1 rest
  renewed-IsGood (clear ∷ es) s sets (inr rest) = renewed-IsGood es (C.remove_all s) sets rest
  renewed-IsGood (sign_in token ∷ es) s sets (inr rest) = renewed-IsGood es s sets rest
  renewed-IsGood (sign_out ∷ es) s sets (inr rest) = renewed-IsGood es s sets rest
