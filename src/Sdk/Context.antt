-- ===== src/Sdk/Context.antt =====
-- The context builders of sdk/javascript/src/index.ts.
use flag_it.Common.{
  Option, none, some, String, List, [], ◌∷◌, ◌≡◌, ◌≢◌, refl, arith, eq_iff, All, str_eq,
  if◌then◌else◌,
}
use flag_it.Sdk.Json.{Json, str, obj, lookup, assign, spread, from_list, lookup-assign}

-- `EvalContext`: the properties of the object, in order.
abbrev pub EvalContext : Type 0 → Type 0
EvalContext N = List (String × Json N)

-- One argument of `multiContext`.
pub record Part (N : Type 0) : Type 0 where
  pub kind : String
  pub key : String
  pub attributes : Option (EvalContext N)

module _ {N : Type 0} where
  -- `{ kind, key, ...attributes }`
  unfoldable pub context : String → String → EvalContext N → EvalContext N
  unfolding spread
  context kind key attributes = spread (("kind", str kind) ∷ ("key", str key) ∷ []) attributes

  abbrev given : Option (EvalContext N) → EvalContext N
  given none = []
  given (some attributes) = attributes

  -- `{ key: p.key, ...(p.attributes ?? {}) }`
  unfoldable pub part_object : Part N → EvalContext N
  unfolding spread
  part_object p = spread (("key", str p.key) ∷ []) (given p.attributes)

  -- The loop of `multiContext`.
  unfoldable pub add_parts : EvalContext N → List (Part N) → EvalContext N
  unfolding part_object
  add_parts ctx [] = ctx
  add_parts ctx (p ∷ parts) = add_parts (assign p.kind (obj (from_list (part_object p))) ctx) parts

  unfoldable pub multi_context : List (Part N) → EvalContext N
  unfolding add_parts assign
  multi_context parts = add_parts (("kind", str "multi") ∷ []) parts

  abbrev pub Lacks : String → List (String × Json N) → Type 0
  Lacks k o = All (λ p. p.0 ≢ k) o

  -- The last binding of a key among the attributes.
  unfoldable pub lookup_last : String → List (String × Json N) → Option (Json N) → Option (Json N)
  lookup_last k [] found = found
  lookup_last k ((j, v) ∷ o) found = lookup_last k o (if str_eq j k then some v else found)

  pub lookup-spread :
      (k : String) (base attributes : List (String × Json N))
      → lookup k (spread base attributes) ≡ lookup_last k attributes (lookup k base)
  unfolding spread lookup_last
  lookup-spread k base [] = refl
  lookup-spread k base ((j, v) ∷ o) = rw (lookup-spread k (assign j v base) o, lookup-assign)

  lookup_last-Lacks :
      (k : String) (o : List (String × Json N)) (found : Option (Json N))
      → Lacks k o
      → lookup_last k o found ≡ found
  unfolding lookup_last
  lookup_last-Lacks k [] found h = refl
  lookup_last-Lacks k ((j, v) ∷ o) found h =
      ground (arith, eq_iff j k, lookup_last-Lacks k o found h.1)

  -- A context has the kind and the key that it was built from, and every other property is the last
  -- one of that name among the attributes, if the attributes name neither `kind` nor `key`.
  pub lookup-context :
      (kind key k : String) (attributes : EvalContext N)
      → Lacks "kind" attributes
      → Lacks "key" attributes
      → lookup k (context kind key attributes) ≡ (
          if str_eq "kind" k
          then some (str kind)
          else if str_eq "key" k
          then some (str key)
          else lookup_last k attributes none)
  unfolding context lookup
  lookup-context kind key k attributes no_kind no_key = rw lookup-spread (
      ground (
        arith,
        eq_iff "kind" k,
        eq_iff "key" k,
        lookup_last-Lacks "kind" attributes (some (str kind)) no_kind,
        lookup_last-Lacks "key" attributes (some (str key)) no_key,
      ))

  -- What a multi-kind context holds under a name.
  unfoldable pub last_part : String → List (Part N) → Option (Json N) → Option (Json N)
  unfolding part_object
  last_part k [] found = found
  last_part k (p ∷ parts) found =
      last_part k parts (if str_eq p.kind k then some (obj (from_list (part_object p))) else found)

  lookup-add_parts :
      (k : String) (ctx : EvalContext N) (parts : List (Part N))
      → lookup k (add_parts ctx parts) ≡ last_part k parts (lookup k ctx)
  unfolding add_parts last_part
  lookup-add_parts k ctx [] = refl
  lookup-add_parts k ctx (p ∷ parts) = rw (
    lookup-add_parts k (assign p.kind (obj (from_list (part_object p))) ctx) parts,
    lookup-assign,
  )

  last_part_lacks :
      (k : String) (parts : List (Part N)) (found : Option (Json N))
      → All (λ p. p.kind ≢ k) parts
      → last_part k parts found ≡ found
  unfolding last_part
  last_part_lacks k [] found h = refl
  last_part_lacks k (p ∷ parts) found h =
      ground (arith, eq_iff p.kind k, last_part_lacks k parts found h.1)

  -- A multi-kind context is marked "multi", and holds under each other name the object of the last
  -- part of that kind, if no part has the kind "kind".
  pub lookup-multi_context :
      (parts : List (Part N)) (k : String)
      → All (λ p. p.kind ≢ "kind") parts
      → lookup k (multi_context parts)
        ≡ (if str_eq "kind" k then some (str "multi") else last_part k parts none)
  unfolding multi_context lookup
  lookup-multi_context parts k h =
      rw lookup-add_parts
        (ground (arith, eq_iff "kind" k, last_part_lacks "kind" parts (some (str "multi")) h))
