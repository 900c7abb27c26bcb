-- ===== src/Sdk/Json.antt =====
-- JSON values as the SDK meets them: what `res.json()` and `JSON.parse` return, and what a context
-- is made of. The numbers of JavaScript are a parameter `N`: the SDK does no arithmetic on them.
use flag_it.Common.{
  Bool, true, false, Option, none, some, String, List, [], ◌∷◌, if◌then◌else◌, str_eq, ◌≡◌, refl,
  arith, eq_iff, not, Text,
}

mutual
  pub data Json (N : Type 0) : Type 0 where
    null : Json N
    bool : Bool → Json N
    num : N → Json N
    str : String → Json N
    arr : Items N → Json N
    obj : Fields N → Json N

  pub data Items (N : Type 0) : Type 0 where
    nil : Items N
    cons : Json N → Items N → Items N

  pub data Fields (N : Type 0) : Type 0 where
    end : Fields N
    field : String → Json N → Fields N → Fields N

module _ {ℓ} {V : Type ℓ} where
  -- A property of an object, `o[k]`; `none` is `undefined`.
  unfoldable pub lookup : String → List (String × V) → Option V
  lookup k [] = none
  lookup k ((j, v) ∷ o) = if str_eq j k then some v else lookup k o

  -- The assignment `o[k] = v`: a key that is there keeps its place.
  unfoldable pub assign : String → V → List (String × V) → List (String × V)
  assign k v [] = (k, v) ∷ []
  assign k v ((j, w) ∷ o) = if str_eq j k then (k, v) ∷ o else (j, w) ∷ assign k v o

  -- The literal `{ ...base, ...attributes }`.
  unfoldable pub spread : List (String × V) → List (String × V) → List (String × V)
  unfolding assign
  spread base [] = base
  spread base ((k, v) ∷ attributes) = spread (assign k v base) attributes

  pub lookup-assign :
      (k j : String) (v : V) (o : List (String × V))
      → lookup j (assign k v o) ≡ (if str_eq k j then some v else lookup j o)
  unfolding lookup assign
  lookup-assign k j v [] = refl
  lookup-assign k j v ((i, w) ∷ o) =
      ground (arith, eq_iff k j, eq_iff i k, eq_iff i j, lookup-assign k j v o)

module _ {N : Type 0} where
  abbrev pub properties : Fields N → List (String × Json N)
  properties end = []
  properties (field k v o) = (k, v) ∷ properties o

  abbrev pub from_list : List (String × Json N) → Fields N
  from_list [] = end
  from_list ((k, v) ∷ o) = field k v (from_list o)

  pub properties-from_list : (o : List (String × Json N)) → properties (from_list o) ≡ o
  properties-from_list [] = refl
  properties-from_list ((k, v) ∷ o) = rw (properties-from_list o)

-- What the SDK uses of JSON and of the numbers: `JSON.parse`, where `none` is a SyntaxError, and
-- which numbers are falsy (0 and NaN).
pub record Host (N : Type 0) : Type 0 where
  pub parse : Text → Option (Json N)
  pub falsy : N → Bool

module _ {N : Type 0} (host : Host N) where
  -- The truth value of a JSON value.
  unfoldable pub truthy : Json N → Bool
  truthy null = false
  truthy (bool b) = b
  truthy (num n) = not (host.falsy n)
  truthy (str s) = not (str_eq s "")
  truthy (arr items) = true
  truthy (obj o) = true
