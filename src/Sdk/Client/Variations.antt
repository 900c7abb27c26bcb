-- ===== src/Sdk/Client/Variations.antt =====
-- When the typed reads of the client return the served value, and when the fallback.
use flag_it.Common.{
  ℕ, ◌↔◌, ◌≡◌, ◌≢◌, refl, ap, ◌∙◌, Bool, Option, none, some, String, arith, Text, ◌≤◌,
}
use flag_it.Sdk.Json.{Json, null, bool, num, str, obj, Fields, properties, lookup}
use flag_it.Sdk.Context.{EvalContext}
use flag_it.Sdk.Client.{
  Call, Reply, rejected, response, get_property, read_reply, safe_value, bool_variation,
  string_variation, number_variation, variation, call, eval_body, or_undefined, bool_or, string_or,
  number_or, value_or, eval_path, ◌>>=◌,
}

-- The reply carries the property `name` of a JSON object, with a status that has a body.
pub data Serves {N : Type 0} (name : String) (v : Json N) : Reply N → Type 0 where
  serves :
      {status : ℕ} {json : Option (Json N)} (o : Fields N)
      → 200 ≤ status
      → status ≤ 299
      → status ≢ 202
      → status ≢ 204
      → json ≡ some (obj o)
      → lookup name (properties o) ≡ some v
      → Serves name v (response status json)

module _ {N : Type 0} where
  value_of : Reply N → Option (Json N)
  value_of r =
      or_undefined (do evaluation ← read_reply eval_path r; get_property evaluation "value")

  get_value_sound :
      (json : Json N) (v : Json N)
      → or_undefined (get_property (some json) "value") ≡ some v
      → (o : Fields N) × (json ≡ obj o) × (lookup "value" (properties o) ≡ some v)
  unfolding get_property
  get_value_sound (obj o) v h = (o, refl, h)
  get_value_sound null v h = cc
  get_value_sound _ v h = cc

  value_of_sound : (r : Reply N) (v : Json N) → value_of r ≡ some v → Serves "value" v r
  unfolding value_of read_reply get_property
  value_of_sound rejected v h = cc
  value_of_sound (response status none) v h = ground arith
  value_of_sound (response status (some json)) v h =
      let (o, same, found) = get_value_sound json v (ground arith) in
      serves o (ground arith) (ground arith) (ground arith) (ground arith) (ap some same) found

  value_of_complete : (r : Reply N) (v : Json N) → Serves "value" v r → value_of r ≡ some v
  unfolding value_of read_reply get_property
  value_of_complete r v (serves o p q a b e found) = rw e (ground arith)

  -- The value, read at a type.
  abbrev pub as_bool : Json N → Bool → Bool
  as_bool (bool b) fallback = b
  as_bool _ fallback = fallback

  abbrev pub as_string : Json N → String → String
  as_string (str s) fallback = s
  as_string _ fallback = fallback

  abbrev pub as_number : Json N → N → N
  as_number (num n) fallback = n
  as_number _ fallback = fallback

  bool_or-as_bool : (v : Json N) (fallback : Bool) → bool_or (some v) fallback ≡ as_bool v fallback
  bool_or-as_bool (bool b) fallback = refl
  bool_or-as_bool _ fallback = refl

  string_or-as_string :
      (v : Json N) (fallback : String) → string_or (some v) fallback ≡ as_string v fallback
  string_or-as_string (str s) fallback = refl
  string_or-as_string _ fallback = refl

  number_or-as_number :
      (v : Json N) (fallback : N) → number_or (some v) fallback ≡ as_number v fallback
  number_or-as_number (num n) fallback = refl
  number_or-as_number _ fallback = refl

  eq-none : (o : Option (Json N)) → ((v : Json N) → o ≢ some v) → o ≡ none
  eq-none none h = refl
  eq-none (some v) h = absurd (h v refl)

module _ {N : Type 0} (fetch : Call N → Reply N) (base_url : Text) (sdk_key : String) where
  -- The reply to the call that an evaluation makes.
  abbrev pub eval_reply : String → EvalContext N → Reply N
  eval_reply flag_key ctx =
      fetch (call fetch base_url sdk_key "POST" eval_path (some (eval_body flag_key ctx)))

  -- A value is read exactly when the reply serves it.
  safe_value_iff :
      (flag_key : String) (ctx : EvalContext N) (v : Json N)
      → (safe_value fetch base_url sdk_key flag_key ctx ≡ some v)
        ↔ Serves "value" v (eval_reply flag_key ctx)
  unfolding safe_value value_of
  safe_value_iff flag_key ctx v = (value_of_sound _ v, value_of_complete _ v)

  -- If the reply serves a value, each typed read returns it if it has the type asked for, and the
  -- fallback if it has another.
  pub variation-served :
      (flag_key : String) (ctx : EvalContext N) (v : Json N) (fb : Bool) (fs : String) (fn : N)
      (fv : Json N)
      → Serves "value" v (eval_reply flag_key ctx)
      → (bool_variation fetch base_url sdk_key flag_key ctx fb ≡ as_bool v fb)
        × (string_variation fetch base_url sdk_key flag_key ctx fs ≡ as_string v fs)
        × (number_variation fetch base_url sdk_key flag_key ctx fn ≡ as_number v fn)
        × (variation fetch base_url sdk_key flag_key ctx fv ≡ v)
  unfolding bool_variation string_variation number_variation variation
  variation-served flag_key ctx v fb fs fn fv h =
      let e = (safe_value_iff flag_key ctx v).1 h in
      (
        ap (λ o. bool_or o fb) e ∙ bool_or-as_bool v fb,
        ap (λ o. string_or o fs) e ∙ string_or-as_string v fs,
        ap (λ o. number_or o fn) e ∙ number_or-as_number v fn,
        ap (λ o. value_or o fv) e,
      )

  -- If the reply serves no value, every typed read returns the fallback and none throws: so on a
  -- network error, on a status outside 200 to 299 or without a body, and on a body that is no JSON,
  -- is no object or has no value.
  pub variation-not_served :
      (flag_key : String) (ctx : EvalContext N) (fb : Bool) (fs : String) (fn : N) (fv : Json N)
      → ((v : Json N) → ¬ Serves "value" v (eval_reply flag_key ctx))
      → (bool_variation fetch base_url sdk_key flag_key ctx fb ≡ fb)
        × (string_variation fetch base_url sdk_key flag_key ctx fs ≡ fs)
        × (number_variation fetch base_url sdk_key flag_key ctx fn ≡ fn)
        × (variation fetch base_url sdk_key flag_key ctx fv ≡ fv)
  unfolding bool_variation string_variation number_variation variation
  variation-not_served flag_key ctx fb fs fn fv h =
      let missing =
        eq-none (safe_value fetch base_url sdk_key flag_key ctx)
          (λ v e. h v ((safe_value_iff flag_key ctx v).0 e)) in
      (
        ap (λ o. bool_or o fb) missing,
        ap (λ o. string_or o fs) missing,
        ap (λ o. number_or o fn) missing,
        ap (λ o. value_or o fv) missing,
      )
