-- ===== src/Contracts/Schema/Nested.antt =====
-- app/contracts/phase0.py: what `validate_schema` has accepted, at every depth.
use startup_ai_manager.Base.{
  ℕ, zero, suc, String, true, false, not, ◌||◌, Option, some, Result, ok, ◌≡◌, sym, ap, subst, ◌∙◌,
  arith, ◌==◌, Bool-cases, inl, inr, ok-injective, List, mem_text, not-false,
}
use startup_ai_manager.Base.Checks.{bind_ok, then_ok, refuse_ok, refuse_passed}
use startup_ai_manager.Json.{Value, Fields, end, field, str, obj, null, bool, get, keys}
use startup_ai_manager.Contracts.{Error, Patterns}
use startup_ai_manager.Contracts.Expect.{expect_mapping, repeats, is_within}
use startup_ai_manager.Contracts.Schema.{
  validate_schema, checked_schema, each_property, check_object, check_properties, check_schema,
  check_additional, check_enum_shape, check_pattern, check_enum_values, schema_type, properties_of,
  required_of, schema_fields, is_false_at, size, has,
}

-- What the body of `validate_schema` has seen when it returns.
pub record Passed (re : Patterns) (f : Value → Result Error Fields) (d : Fields) : Type 0 where
  pub kind : String
  pub typed : schema_type d ≡ ok kind
  pub known : is_within (keys d) schema_fields ≡ true
  pub additional : check_additional kind d ≡ ok tt
  pub shape : check_enum_shape d ≡ ok tt
  pub pattern_checked : check_pattern re kind d ≡ ok tt
  pub properties : check_properties f kind d ≡ ok tt
  pub values : check_enum_values kind d ≡ ok tt

pub check_schema_ok :
    (re : Patterns) (f : Value → Result Error Fields) (d : Fields) {e : Fields}
    → check_schema re f d ≡ ok e
    → Passed re f d × (d ≡ e)
unfolding check_schema
check_schema_ok re f d h0 =
    let (k, h1) = refuse_ok (not (is_within (keys d) schema_fields)) _ _ h0 in
    let (t, ht, h2) = bind_ok (schema_type d) _ h1 in
    let (ha, h3) = then_ok (check_additional t d) _ h2 in
    let (hs, h4) = then_ok (check_enum_shape d) _ h3 in
    let (hp, h5) = then_ok (check_pattern re t d) _ h4 in
    let (hc, h6) = then_ok (check_properties f t d) _ h5 in
    let (hv, h7) = then_ok (check_enum_values t d) _ h6 in
    (
      record {
        kind = t;
        typed = ht;
        known = not-false _ k;
        additional = ha;
        shape = hs;
        pattern_checked = hp;
        properties = hc;
        values = hv;
      },
      ok-injective h7,
    )

pub validate_schema_ok :
    (re : Patterns) (n : ℕ) (s : Value) {e : Fields}
    → validate_schema re n s ≡ ok e
    → (m : ℕ) × (s ≡ obj e) × Passed re (validate_schema re m) e
unfolding validate_schema expect_mapping
validate_schema_ok re zero s h = absurd (cc h)
validate_schema_ok re (suc n) (obj d) h =
    let (p, e) = check_schema_ok re (validate_schema re n) d h in
    (n, ap obj e, subst (Passed re (validate_schema re n)) e p)
validate_schema_ok re (suc n) null h = absurd (cc h)
validate_schema_ok re (suc n) _ h = absurd (cc h)

-- `Nested v s`: the schema `v` is `s`, or stands among the properties of `s`, at any depth.
pub data Nested : Value → Value → Type 0 where
  itself : {v : Value} → Nested v v
  inside :
      {v child : Value} {d ps : Fields} (name : String)
      → get "properties" d ≡ some (obj ps)
      → get name ps ≡ some child
      → Nested v child
      → Nested v (obj d)

each_property_ok :
    (f : Value → Result Error Fields) (ps : Fields) (name : String) {child : Value}
    → each_property f ps ≡ ok tt
    → get name ps ≡ some child
    → (d : Fields) × (f child ≡ ok d)
unfolding each_property get
each_property_ok f end name h g = absurd (cc g)
each_property_ok f (field k v rest) name {child} h g =
    let (_, h1) = refuse_ok (k == "") _ _ h in
    let (e, hv, h2) = bind_ok (f v) _ h1 in
    elim (Bool-cases (k == name)) [
      | inl p ↦ let q = rw (p) at g in (e, subst (λ x. f x ≡ ok e) (some-injective q) hv)
      | inr p ↦ each_property_ok f rest name h2 (rw (p) at g)
    ]
  where
    some-injective : {a b : Value} → ◌≡◌ {A = Option Value} (some a) (some b) → a ≡ b
    some-injective q = cc q

check_object_ok :
    (f : Value → Result Error Fields) (d : Fields)
    → check_object f d ≡ ok tt
    → (ps : Fields) × (r : List String) × (properties_of d ≡ ok ps)
      × (required_of d ≡ ok r)
      × (repeats r ≡ false)
      × (is_within r (keys ps) ≡ true)
      × (each_property f ps ≡ ok tt)
unfolding check_object
check_object_ok f d h0 =
    let (ps, hps, h1) = bind_ok (properties_of d) _ h0 in
    let (r, hr, h2) = bind_ok (required_of d) _ h1 in
    let (hd, h3) = refuse_ok (repeats r) _ _ h2 in
    let (hw, h4) = refuse_ok (not (is_within r (keys ps))) _ _ h3 in
    (ps, r, hps, hr, hd, not-false _ hw, h4)

properties_of_obj : (d ps : Fields) → get "properties" d ≡ some (obj ps) → properties_of d ≡ ok ps
unfolding properties_of
properties_of_obj d ps h = rw (h, properties_of)

-- The properties of an accepted schema are accepted.
properties_Passed :
    (re : Patterns) (f : Value → Result Error Fields) (d ps : Fields) (name : String)
    {child : Value}
    → Passed re f d
    → get "properties" d ≡ some (obj ps)
    → get name ps ≡ some child
    → (e : Fields) × (f child ≡ ok e)
unfolding check_properties
properties_Passed re f d ps name p hps hc = elim (Bool-cases (p.kind == "object")) [
  | inl k ↦
      let (qs, _, hqs, _, _, _, h) = check_object_ok f d (rw (k) at p.properties) in
      let e = ok-injective (sym hqs ∙ properties_of_some) in
      each_property_ok f ps name (subst (λ x. each_property f x ≡ ok tt) e h) hc
  | inr k ↦
      let h = refuse_passed (has "properties" d || has "required" d) _ (rw (k) at p.properties) in
      absurd (cc (rw (hps, ◌||◌) at h))
]
  where
    properties_of_some : properties_of d ≡ ok ps
    properties_of_some = properties_of_obj d ps hps

Nested-ok :
    (re : Patterns) {v s : Value}
    → Nested v s
    → (n : ℕ) {d : Fields} → validate_schema re n s ≡ ok d
    → (m : ℕ) × (e : Fields) × (v ≡ obj e) × Passed re (validate_schema re m) e
Nested-ok re {s = s} itself n {d} h = let (m, q, p) = validate_schema_ok re n s h in (m, d, q, p)
Nested-ok re (inside {d = d} {ps} name hps hc nested) n h =
    let (m, q, p) = validate_schema_ok re n (obj d) h in
    let p' = subst (Passed re (validate_schema re m)) (sym (obj-injective q)) p in
    let (e, he) = properties_Passed re (validate_schema re m) d ps name p' hps hc in
    Nested-ok re nested m he
  where
    obj-injective : {a b : Fields} → obj a ≡ obj b → a ≡ b
    obj-injective q = cc q

-- An object schema takes no argument that it does not declare, and requires none either.
pub record Closed (d : Fields) : Type 0 where
  pub no_others : get "additionalProperties" d ≡ some (bool false)
  pub offered : Fields
  pub required : List String
  pub declares : properties_of d ≡ ok offered
  pub requires : required_of d ≡ ok required
  pub within : is_within required (keys offered) ≡ true
  pub no_repeats : repeats required ≡ false

kind_object :
    (re : Patterns) (f : Value → Result Error Fields) (d : Fields) (p : Passed re f d)
    → get "type" d ≡ some (str "object")
    → p.kind ≡ "object"
unfolding schema_type mem_text
kind_object re f d p h = sym (ok-injective (rw (h, schema_type) at p.typed))

additional_object :
    (d : Fields)
    → check_additional "object" d ≡ ok tt
    → get "additionalProperties" d ≡ some (bool false)
unfolding check_additional is_false_at
additional_object d h = ground arith

Passed-Closed :
    (re : Patterns) (f : Value → Result Error Fields) (d : Fields)
    → Passed re f d
    → get "type" d ≡ some (str "object")
    → Closed d
unfolding check_properties
Passed-Closed re f d p h =
    let k = kind_object re f d p h in
    let (ps, r, hps, hr, hd, hw, _) = check_object_ok f d (rw (k) at p.properties) in
    record {
      no_others = additional_object d (subst (λ t. check_additional t d ≡ ok tt) k p.additional);
      offered = ps;
      required = r;
      declares = hps;
      requires = hr;
      within = hw;
      no_repeats = hd;
    }

-- At every depth of a schema that `validate_schema` has accepted, a schema of type `object` says
-- `additionalProperties: false`, and requires properties that it declares, none of them twice.
pub Nested-Closed :
    (re : Patterns) {v s : Value} {d : Fields}
    → checked_schema re s ≡ ok d
    → Nested v s
    → (e : Fields) × (v ≡ obj e) × (get "type" e ≡ some (str "object") → Closed e)
Nested-Closed re {v} {s} h nested =
    let (m, e, q, p) = Nested-ok re nested (size s) h in
    (e, q, Passed-Closed re (validate_schema re m) e p)
