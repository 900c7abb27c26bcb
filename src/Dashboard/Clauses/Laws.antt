-- ===== src/Dashboard/Clauses/Laws.antt =====
-- What is shown of the values of a clause is read back as the values.
use Prim.Native.Char.{code}
use text.Mathlib.TextLemmas.{nil-append, cons-append, append-nil, append_assoc}
use flag_it.Common.{
  false, not, String, List, [], ◌∷◌, ◌==◌, map, filterb, str_eq, ◌≡◌, refl, ap, ◌∙◌, sym, All,
  filterb-keep,
}
use flag_it.Sdk.Json.{Json}
use flag_it.Dashboard.Api.{◌<>◌}
use flag_it.Dashboard.Trim.{trim, trim_start}
use flag_it.Dashboard.Clauses.{
  JsonText, split_commas, join_commas, taken, coerce_value, parse_values, shown, display_values,
}

abbrev pub HasNoComma : String → Type 0
HasNoComma String.[] = Unit
HasNoComma (String.◌∷◌ c s) = ((code c == 44) ≡ false) × HasNoComma s

split-append :
    (s t x : String) (xs : List String)
    → HasNoComma s
    → split_commas t ≡ x ∷ xs
    → split_commas (s <> t) ≡ (s <> x) ∷ xs
unfolding split_commas
split-append String.[] t x xs clean e = rw (nil-append t, nil-append x) e
split-append (String.◌∷◌ c s) t x xs clean e =
    rw
      (
        cons-append c s t,
        cons-append c s x,
        clean.0,
        split-append s t x xs clean.1 e,
        cons-append c "" (s <> x),
        nil-append (s <> x),
      )
      refl

split-comma :
    (t x : String) (xs : List String)
    → split_commas t ≡ x ∷ xs
    → split_commas ("," <> t) ≡ "" ∷ x ∷ xs
unfolding split_commas
split-comma t x xs e = rw (cons-append "," "" t, nil-append t, e) refl

abbrev spaced : List String → List String
spaced [] = []
spaced (t ∷ ts) = (" " <> t) ∷ spaced ts

-- A joined text is cut into the first text and the others behind a space.
split-join :
    (t : String) (ts : List String)
    → All HasNoComma (t ∷ ts)
    → split_commas (join_commas (t ∷ ts)) ≡ t ∷ spaced ts
unfolding split_commas
split-join t [] clean =
    ap split_commas (sym (append-nil t))
    ∙ split-append t "" "" [] clean.0 refl
    ∙ ap (λ s. s ∷ []) (append-nil t)
split-join t (u ∷ ts) clean =
    let later = split-join u ts clean.1 in
    let behind = split-append " " (join_commas (u ∷ ts)) u (spaced ts) (refl, tt) later in
    let cut = split-comma (" " <> join_commas (u ∷ ts)) (" " <> u) (spaced ts) behind in
    ap (λ s. split_commas (t <> s)) (append_assoc "," " " (join_commas (u ∷ ts)))
    ∙ split-append t ("," <> (" " <> join_commas (u ∷ ts))) "" ((" " <> u) ∷ spaced ts) clean.0 cut
    ∙ ap (λ s. s ∷ (" " <> u) ∷ spaced ts) (append-nil t)

trim-space : (t : String) → trim (" " <> t) ≡ trim t
unfolding trim trim_start
trim-space t = rw (cons-append " " "" t, nil-append t) refl

module _ {N : Type 0} (texts : JsonText N) where
  -- The text of the value is trimmed, not empty and without a comma, and is read as the value.
  pub record IsTidy (v : Json N) : Type 0 where
    pub trimmed : trim (shown texts v) ≡ shown texts v
    pub filled : str_eq (shown texts v) "" ≡ false
    pub clean : HasNoComma (shown texts v)
    pub read : taken texts (shown texts v) (texts.parse (shown texts v)) ≡ v

  commas_gone : (vs : List (Json N)) → All IsTidy vs → All HasNoComma (map (shown texts) vs)
  commas_gone [] h = tt
  commas_gone (v ∷ vs) h = (h.0.clean, commas_gone vs h.1)

  abbrev read_all : List String → List (Json N)
  read_all ts = map (coerce_value texts) (filterb (λ v. not (str_eq v "")) (map trim ts))

  read_one :
      (t : String) (ts : List String) (v : Json N)
      → IsTidy v
      → trim t ≡ shown texts v
      → read_all (t ∷ ts) ≡ v ∷ read_all ts
  read_one t ts v h e =
      rw
        (
          e,
          filterb-keep (λ v. not (str_eq v "")) (shown texts v) (map trim ts) (rw h.filled refl),
          h.trimmed,
          h.read,
        )
        refl

  read_spaced : (vs : List (Json N)) → All IsTidy vs → read_all (spaced (map (shown texts) vs)) ≡ vs
  read_spaced [] h = refl
  read_spaced (v ∷ vs) h =
      read_one (" " <> shown texts v) (spaced (map (shown texts) vs)) v h.0
        (trim-space (shown texts v) ∙ h.0.trimmed)
      ∙ ap (λ r. v ∷ r) (read_spaced vs h.1)

  -- Values whose texts are trimmed, not empty and without a comma, and each of which is read as the
  -- value, survive being shown in the field of a clause and read from it.
  pub parse_values-display_values :
      (vs : List (Json N)) → All IsTidy vs → parse_values texts (display_values texts vs) ≡ vs
  unfolding parse_values display_values split_commas trim
  parse_values-display_values [] h = refl
  parse_values-display_values (v ∷ vs) h =
      ap read_all (split-join (shown texts v) (map (shown texts) vs) (commas_gone (v ∷ vs) h))
      ∙ read_one (shown texts v) (spaced (map (shown texts) vs)) v h.0 h.0.trimmed
      ∙ ap (λ r. v ∷ r) (read_spaced vs h.1)
