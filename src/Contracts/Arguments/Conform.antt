-- ===== src/Contracts/Arguments/Conform.antt =====
-- app/contracts/phase0.py: what the arguments that `validate_tool_arguments` accepts are, read off
-- the schema.
use startup_ai_manager.Base.{
  String, true, not, eq_iff, Option, none, some, Option-cases, mem_text, ◌≡◌, ◌≢◌, ◌↔◌, ◌⊎◌, inl,
  inr, refl, sym, ◌∙◌, Result, ok, err, not-false, ap, subst,
}
use startup_ai_manager.Base.Checks.{◌>>=◌, bind_ok, then_ok, refuse_ok, refuse_passed}
use startup_ai_manager.Json.{Value, Fields, Items, end, field, str, arr, obj, get, keys}
use startup_ai_manager.Json.Equals.{is_among, has_text}
use startup_ai_manager.Contracts.{Error, Patterns}
use startup_ai_manager.Contracts.Expect.{expect_mapping, is_within}
use startup_ai_manager.Contracts.Sets.{is_within_iff, get-mem_text, mem_text-get}
use startup_ai_manager.Contracts.Schema.{checked_schema, schema_type_matches, size}
use startup_ai_manager.Contracts.Schema.Nested.{validate_schema_ok}
use startup_ai_manager.Contracts.Arguments.{
  declared, required, schema_of, check_type, check_enum, search_text, search_pattern, check_value,
  check_present, check_against, check_arguments, validate_tool_arguments,
}

-- A value that one schema allows.
pub record Allows (re : Patterns) (child : Fields) (value : Value) : Type 0 where
  pub typed :
      (t : String) × (get "type" child ≡ some (str t)) × (schema_type_matches value t ≡ true)
  pub listed :
      (get "enum" child ≡ none)
      ⊎ ((items : Items) × (get "enum" child ≡ some (arr items)) × (is_among value items ≡ true))
  pub found :
      (get "pattern" child ≡ none)
      ⊎ ((p s : String) × (get "pattern" child ≡ some (str p))
          × (value ≡ str s)
          × (re.searches p s ≡ true))

-- `P` holds of every entry.
abbrev pub Entries : (String → Value → Type 0) → Fields → Type 0
Entries P end = Unit
Entries P (field k v rest) = P k v × Entries P rest

-- Arguments that a schema allows.
pub record Conforms (re : Patterns) (schema args : Fields) : Type 0 where
  pub all_there :
      (k : String) → mem_text k (required schema) ≡ true → (v : Value) × (get k args ≡ some v)
  pub no_others :
      (k : String) (v : Value) → get k args ≡ some v → mem_text k (keys (declared schema)) ≡ true
  pub allowed :
      Entries
        (λ name child. (v : Value) → get name args ≡ some v → Allows re (schema_of child) v)
        (declared schema)

module _ (re : Patterns) (child : Fields) (value : Value) where
  type_ok :
      check_type child value ≡ ok tt
      → (t : String) × (get "type" child ≡ some (str t)) × (schema_type_matches value t ≡ true)
  unfolding check_type
  type_ok h = go (get "type" child) refl
    where
      go :
          (o : Option Value)
          → get "type" child ≡ o
          → (t : String) × (get "type" child ≡ some (str t)) × (schema_type_matches value t ≡ true)
      go (some (str t)) e = (t, e, not-false _ (refuse_passed _ _ (rw (e, check_type) at h)))
      go none e = absurd (cc (rw (e, check_type) at h))
      go (some _) e = absurd (cc (rw (e, check_type) at h))

  enum_ok :
      check_enum child value ≡ ok tt
      → (get "enum" child ≡ none)
        ⊎ ((items : Items) × (get "enum" child ≡ some (arr items)) × (is_among value items ≡ true))
  unfolding check_enum
  enum_ok h = go (get "enum" child) refl
    where
      go :
          (o : Option Value)
          → get "enum" child ≡ o
          → (get "enum" child ≡ none)
            ⊎ ((items : Items) × (get "enum" child ≡ some (arr items))
                × (is_among value items ≡ true))
      go none e = inl e
      go (some (arr items)) e =
          inr (items, e, not-false _ (refuse_passed _ _ (rw (e, check_enum) at h)))
      go (some _) e = absurd (cc (rw (e, check_enum) at h))

  pattern_ok :
      search_pattern re child value ≡ ok tt
      → (get "pattern" child ≡ none)
        ⊎ ((p s : String) × (get "pattern" child ≡ some (str p))
            × (value ≡ str s)
            × (re.searches p s ≡ true))
  unfolding search_pattern search_text
  pattern_ok h = go (get "pattern" child) refl
    where
      on_text :
          (p : String) (v : Value)
          → search_text re p v ≡ ok tt
          → (s : String) × (v ≡ str s) × (re.searches p s ≡ true)
      on_text p (str s) h = (s, refl, not-false _ (refuse_passed _ _ h))
      on_text p Value.null h = absurd (cc h)
      on_text p _ h = absurd (cc h)

      go :
          (o : Option Value)
          → get "pattern" child ≡ o
          → (get "pattern" child ≡ none)
            ⊎ ((p s : String) × (get "pattern" child ≡ some (str p))
                × (value ≡ str s)
                × (re.searches p s ≡ true))
      go none e = inl e
      go (some (str p)) e =
          let (s, v, f) = on_text p value (rw (e, search_pattern) at h) in inr (p, s, e, v, f)
      go (some _) e = absurd (cc (rw (e, search_pattern) at h))

  enum_passes : Allows re child value → check_enum child value ≡ ok tt
  unfolding check_enum
  enum_passes a = elim a.listed [
    | inl e ↦ rw (e, check_enum)
    | inr (items, e, m) ↦ rw (e, check_enum, m)
  ]

  pattern_passes : Allows re child value → search_pattern re child value ≡ ok tt
  unfolding search_pattern search_text
  pattern_passes a = elim a.found [
    | inl e ↦ rw (e, search_pattern)
    | inr (p, s, e, v, f) ↦ rw (e, search_pattern, v, search_text, f)
  ]

  pub check_value_iff : (check_value re child value ≡ ok tt) ↔ Allows re child value
  unfolding check_value check_type
  check_value_iff = (forth, back)
    where
      forth : check_value re child value ≡ ok tt → Allows re child value
      forth h0 =
          let (ht, h1) = then_ok (check_type child value) _ h0 in
          let (he, hp) = then_ok (check_enum child value) _ h1 in
          record { typed = type_ok ht; listed = enum_ok he; found = pattern_ok hp }

      back : Allows re child value → check_value re child value ≡ ok tt
      back a = let (t, e, m) = a.typed in rw (e, check_type, m, enum_passes a, pattern_passes a)

-- The loop over the properties.
check_arguments_iff :
    (re : Patterns) (ps args : Fields)
    → (check_arguments re ps args ≡ ok tt)
      ↔ Entries
          (λ name child. (v : Value) → get name args ≡ some v → Allows re (schema_of child) v)
          ps
unfolding check_arguments check_present
check_arguments_iff re ps args = (forth ps, back ps)
  where
    IsAllowed : String → Value → Type 0
    IsAllowed name child = (v : Value) → get name args ≡ some v → Allows re (schema_of child) v

    one_ok :
        (name : String) (child : Value)
        → check_present re child (get name args) ≡ ok tt
        → IsAllowed name child
    one_ok name child h v e =
        (check_value_iff re (schema_of child) v).0
          (subst (λ o. check_present re child o ≡ ok tt) e h)

    one_passes :
        (name : String) (child : Value)
        → IsAllowed name child
        → check_present re child (get name args) ≡ ok tt
    one_passes name child a = elim (Option-cases (get name args)) [
      | inl e ↦ rw (e)
      | inr (v, e) ↦ rw (e, (check_value_iff re (schema_of child) v).1 (a v e))
    ]

    forth : (ps : Fields) → check_arguments re ps args ≡ ok tt → Entries IsAllowed ps
    forth end h = tt
    forth (field name child rest) h0 =
        let (h, hs) = then_ok (check_present re child (get name args)) _ h0 in
        (one_ok name child h, forth rest hs)

    back : (ps : Fields) → Entries IsAllowed ps → check_arguments re ps args ≡ ok tt
    back end h = refl
    back (field name child rest) a = rw (one_passes name child a.0, back rest a.1)

object_type :
    (d : Fields) → (has_text "type" "object" d ≡ true) ↔ (get "type" d ≡ some (str "object"))
unfolding has_text
object_type d = (forth, λ h. rw (h, has_text))
  where
    forth : has_text "type" "object" d ≡ true → get "type" d ≡ some (str "object")
    forth h = go (get "type" d) refl
      where
        go : (o : Option Value) → get "type" d ≡ o → get "type" d ≡ some (str "object")
        go (some (str t)) e =
            e ∙ ap (λ t. some (str t)) (sym ((eq_iff "object" t).0 (rw (e, has_text) at h)))
        go none e = absurd (cc (rw (e, has_text) at h))
        go (some _) e = absurd (cc (rw (e, has_text) at h))

check_against_iff :
    (re : Patterns) (schema args : Fields)
    → (check_against re schema args ≡ ok tt)
      ↔ ((get "type" schema ≡ some (str "object")) × Conforms re schema args)
unfolding check_against
check_against_iff re schema args = (forth, back)
  where
    forth :
        check_against re schema args ≡ ok tt
        → (get "type" schema ≡ some (str "object")) × Conforms re schema args
    forth h1 =
        let (ht, h2) = refuse_ok (not (has_text "type" "object" schema)) _ _ h1 in
        let (hr, h3) = refuse_ok (not (is_within (required schema) (keys args))) _ _ h2 in
        let (hx, h4) = refuse_ok (not (is_within (keys args) (keys (declared schema)))) _ _ h3 in
        (
          (object_type schema).0 (not-false _ ht),
          record {
            all_there = λ k m. mem_text-get k args ((is_within_iff _ _).0 (not-false _ hr) k m);
            no_others = λ k v e. (is_within_iff _ _).0 (not-false _ hx) k (get-mem_text k args e);
            allowed = (check_arguments_iff re (declared schema) args).0 h4;
          },
        )

    back :
        (get "type" schema ≡ some (str "object")) × Conforms re schema args
        → check_against re schema args ≡ ok tt
    back (ht, c) =
        let p = (object_type schema).1 ht in
        let q =
          (is_within_iff (required schema) (keys args)).1
            (λ k m. let (v, e) = c.all_there k m in get-mem_text k args e) in
        let r =
          (is_within_iff (keys args) (keys (declared schema))).1
            (λ k m. let (v, e) = mem_text-get k args m in c.no_others k v e) in
        rw (p, q, r, (check_arguments_iff re (declared schema) args).1 c.allowed)

-- `validate_tool_arguments` accepts the dict `args` for the dict `schema` exactly where the schema
-- is accepted and of type `object`, and the arguments conform to it: every required one is there,
-- each is declared, and each value is allowed by what its property says of type, enum and pattern.
pub arguments_conform :
    (re : Patterns) (schema args : Fields)
    → (validate_tool_arguments re (obj schema) (obj args) ≡ ok tt) ↔ (
        (checked_schema re (obj schema) ≡ ok schema)
        × (get "type" schema ≡ some (str "object"))
        × Conforms re schema args)
unfolding validate_tool_arguments expect_mapping
arguments_conform re schema args = (forth, back)
  where
    forth :
        validate_tool_arguments re (obj schema) (obj args) ≡ ok tt
        → (checked_schema re (obj schema) ≡ ok schema)
          × (get "type" schema ≡ some (str "object"))
          × Conforms re schema args
    forth h =
        let (d, hd, h1) = bind_ok (checked_schema re (obj schema)) _ h in
        let (_, q, _) = validate_schema_ok re (size (obj schema)) (obj schema) hd in
        let e = sym (obj-injective q) in
        let (ht, c) =
          (check_against_iff re schema args).0
            (subst (λ x. check_against re x args ≡ ok tt) e h1) in
        (hd ∙ ap ok e, ht, c)
      where
        obj-injective : {a b : Fields} → obj a ≡ obj b → a ≡ b
        obj-injective q = cc q

    back :
        (checked_schema re (obj schema) ≡ ok schema)
          × (get "type" schema ≡ some (str "object"))
          × Conforms re schema args
        → validate_tool_arguments re (obj schema) (obj args) ≡ ok tt
    back (hc, ht, c) = rw (hc, (check_against_iff re schema args).1 (ht, c))

failed : (r : Result Error Fields) (e : Error) → (r >>= λ _. err e) ≢ ok tt
failed (ok d) e h = cc h
failed (err x) e h = cc h

-- Both the schema and the arguments that are accepted are dicts, and the one conforms to the other.
pub accepted_arguments :
    (re : Patterns) (schema arguments : Value)
    → validate_tool_arguments re schema arguments ≡ ok tt
    → (d args : Fields) × (schema ≡ obj d) × (arguments ≡ obj args) × Conforms re d args
unfolding validate_tool_arguments expect_mapping
accepted_arguments re schema (obj args) h =
    let (d, hd, h1) = bind_ok (checked_schema re schema) _ h in
    let (_, q, _) = validate_schema_ok re (size schema) schema hd in
    (d, args, q, refl, ((check_against_iff re d args).0 h1).1)
accepted_arguments re schema Value.null h = absurd (failed (checked_schema re schema) _ h)
accepted_arguments re schema _ h = absurd (failed (checked_schema re schema) _ h)
