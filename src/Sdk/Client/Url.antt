-- ===== src/Sdk/Client/Url.antt =====
-- The base URL of the client.
use flag_it.Common.{
  ℕ, suc, ◌≡◌, ◌≢◌, refl, ap, [], ◌∷◌, ◌++◌, arith, Text, replicate, ◌==◌, inl, inr, Bool-cases,
}
use flag_it.Sdk.Client.{strip_slashes}

-- The text does not end in a slash.
abbrev pub NoFinalSlash : Text → Type 0
NoFinalSlash [] = Unit
NoFinalSlash (c ∷ []) = c ≢ b'/'
NoFinalSlash (c ∷ d ∷ s) = NoFinalSlash (d ∷ s)

NoFinalSlash-cons : (c : ℕ) (s : Text) → s ≢ [] → NoFinalSlash s → NoFinalSlash (c ∷ s)
NoFinalSlash-cons c [] p h = absurd (p refl)
NoFinalSlash-cons c (d ∷ s) p h = h

-- The stripped base URL does not end in a slash, and differs from what was given by final slashes
-- alone.
pub strip_slashes_lem :
    (s : Text)
    → NoFinalSlash (strip_slashes s) × ((n : ℕ) × (s ≡ strip_slashes s ++ replicate n b'/'))
unfolding strip_slashes
strip_slashes_lem [] = (tt, (0, refl))
strip_slashes_lem (c ∷ s) =
    let (ih, (n, same)) = strip_slashes_lem s in go (strip_slashes s) refl ih n same
  where
    go :
        (r : Text)
        → strip_slashes s ≡ r
        → NoFinalSlash (strip_slashes s)
        → (n : ℕ) → s ≡ strip_slashes s ++ replicate n b'/'
        → NoFinalSlash (strip_slashes (c ∷ s))
          × ((n : ℕ) × (c ∷ s ≡ strip_slashes (c ∷ s) ++ replicate n b'/'))
    go [] e ih n same = rw e (elim (Bool-cases (c == b'/')) [
      | inl slash ↦ rw slash (tt, (suc n, ground (arith, rw e at same)))
      | inr other ↦ rw other (ground arith, (n, ground (arith, rw e at same)))
    ])
    go (d ∷ r) e ih n same = rw e (rw e at ih, (n, ap (λ t. c ∷ t) (rw e at same)))
