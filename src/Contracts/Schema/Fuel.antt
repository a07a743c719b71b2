-- ===== src/Contracts/Schema/Fuel.antt =====
-- app/contracts/phase0.py: the recursion of `validate_schema` ends.
use startup_ai_manager.Base.{
  ℕ, zero, suc, ◌≤◌, String, Bool, true, false, not, ◌||◌, if◌then◌else◌, Option, none, some,
  Result, ok, err, ◌≡◌, ◌≢◌, refl, sym, arith, ◌==◌, Bool-cases, inl, inr, ok-injective,
}
use startup_ai_manager.Base.Checks.{◌>>=◌, ◌>>◌, refuse}
use startup_ai_manager.Json.{Value, Fields, end, field, obj, null, get, keys}
use startup_ai_manager.Contracts.{Error, refused, out_of_fuel, Rule, Patterns}
use startup_ai_manager.Contracts.Expect.{expect_mapping, repeats, is_within}
use startup_ai_manager.Contracts.Schema.{
  validate_schema, each_property, check_object, check_properties, check_schema, check_additional,
  check_enum_shape, check_pattern, check_enum_values, schema_type, properties_of, required_of, size,
  has, schema_fields, checked_schema, size_fields,
}

get-size : (k : String) (d : Fields) {v : Value} → get k d ≡ some v → size v ≤ size_fields d
unfolding get size
get-size k end h = absurd (cc h)
get-size k (field j w rest) {v} h = elim (Bool-cases (j == k)) [
  | inl e ↦ grind (arith, e)
  | inr e ↦ grind (arith, e, get-size k rest)
]

properties_of-size : (d ps : Fields) → properties_of d ≡ ok ps → size_fields ps ≤ size_fields d
unfolding properties_of size
properties_of-size d ps h = go (get "properties" d) refl
  where
    go : (o : Option Value) → get "properties" d ≡ o → size_fields ps ≤ size_fields d
    go (some (obj qs)) e =
        let p = ok-injective (rw (e, properties_of) at h) in
        grind (arith, p, get-size "properties" d e)
    go none e = let p = ok-injective (rw (e, properties_of) at h) in grind (arith, sym p)
    go (some _) e = absurd (cc (rw (e, properties_of) at h))

-- The checks of a schema call the validation on smaller schemas alone.
module _ (f g : Value → Result Error Fields) where
  each_property-agree :
      (ps : Fields)
      → ((v : Value) → size v ≤ size_fields ps → f v ≡ g v)
      → each_property f ps ≡ each_property g ps
  unfolding each_property size
  each_property-agree end h = refl
  each_property-agree (field k v rest) h =
      rw (h v (omega arith), each_property-agree rest (λ w p. h w (omega (arith, p))))

  check_object-agree :
      (d : Fields)
      → ((v : Value) → size v ≤ size_fields d → f v ≡ g v)
      → check_object f d ≡ check_object g d
  unfolding check_object
  check_object-agree d h = go (properties_of d) refl
    where
      go : (r : Result Error Fields) → properties_of d ≡ r → check_object f d ≡ check_object g d
      go (ok ps) e =
          rw (e, each_property-agree ps (λ v p. h v (omega (arith, p, properties_of-size d ps e))))
      go (err x) e = rw (e)

  check_properties-agree :
      (t : String) (d : Fields)
      → ((v : Value) → size v ≤ size_fields d → f v ≡ g v)
      → check_properties f t d ≡ check_properties g t d
  unfolding check_properties
  check_properties-agree t d h = rw (check_object-agree d h)

  check_schema-agree :
      (re : Patterns) (d : Fields)
      → ((v : Value) → size v ≤ size_fields d → f v ≡ g v)
      → check_schema re f d ≡ check_schema re g d
  unfolding check_schema
  check_schema-agree re d h = go (schema_type d) refl
    where
      go : (r : Result Error String) → schema_type d ≡ r → check_schema re f d ≡ check_schema re g d
      go (ok t) e = rw (e, check_properties-agree t d h)
      go (err x) e = rw (e)

size-positive : (v : Value) → 1 ≤ size v
unfolding size
size-positive (obj d) = omega arith
size-positive null = omega arith
size-positive _ = omega arith

pub fuel_irrelevant :
    (re : Patterns) (n m : ℕ) (schema : Value)
    → size schema ≤ n
    → size schema ≤ m
    → validate_schema re n schema ≡ validate_schema re m schema
unfolding validate_schema size expect_mapping
fuel_irrelevant re (suc n) (suc m) (obj d) hn hm =
    check_schema-agree (validate_schema re n) (validate_schema re m) re d
      (λ v p. fuel_irrelevant re n m v (omega (arith, p, hn)) (omega (arith, p, hm)))
fuel_irrelevant re (suc n) (suc m) null hn hm = refl
fuel_irrelevant re (suc n) (suc m) _ hn hm = refl
fuel_irrelevant re zero m v hn hm = absurd (omega (arith, hn, size-positive v))
fuel_irrelevant re n zero v hn hm = absurd (omega (arith, hm, size-positive v))

-- The call has not run out of fuel.
abbrev Finishes : {A : Type 0} → Result Error A → Type 0
Finishes r = r ≢ err out_of_fuel

bind-Finishes :
    {A B : Type 0} (m : Result Error A) (f : A → Result Error B)
    → Finishes m
    → ((a : A) → m ≡ ok a → Finishes (f a))
    → Finishes (m >>= f)
bind-Finishes (ok a) f hm hf = hf a refl
bind-Finishes (err e) f hm hf = λ h. hm (cc h)

then-Finishes :
    {B : Type 0} (m : Result Error (Unit {0})) (k : Result Error B)
    → Finishes m
    → Finishes k
    → Finishes (m >> k)
then-Finishes m k hm hk = bind-Finishes m (λ _. k) hm (λ _ _. hk)

refuse-Finishes : (b : Bool) (r : Rule) → Finishes (refuse b (refused r))
refuse-Finishes true r h = cc h
refuse-Finishes false r h = cc h

schema_type-Finishes : (d : Fields) → Finishes (schema_type d)
unfolding schema_type
schema_type-Finishes d = ground arith

properties_of-Finishes : (d : Fields) → Finishes (properties_of d)
unfolding properties_of
properties_of-Finishes d = ground arith

required_of-Finishes : (d : Fields) → Finishes (required_of d)
unfolding required_of
required_of-Finishes d = ground arith

check_additional-Finishes : (t : String) (d : Fields) → Finishes (check_additional t d)
unfolding check_additional
check_additional-Finishes t d = ground arith

check_enum_shape-Finishes : (d : Fields) → Finishes (check_enum_shape d)
unfolding check_enum_shape
check_enum_shape-Finishes d = ground arith

check_pattern-Finishes : (re : Patterns) (t : String) (d : Fields) → Finishes (check_pattern re t d)
unfolding check_pattern
check_pattern-Finishes re t d = ground arith

check_enum_values-Finishes : (t : String) (d : Fields) → Finishes (check_enum_values t d)
unfolding check_enum_values
check_enum_values-Finishes t d = ground arith

module _ (f : Value → Result Error Fields) where
  each_property-Finishes :
      (ps : Fields)
      → ((v : Value) → size v ≤ size_fields ps → Finishes (f v))
      → Finishes (each_property f ps)
  unfolding each_property size
  each_property-Finishes end h = λ e. cc e
  each_property-Finishes (field k v rest) h = then-Finishes _ _ (refuse-Finishes (k == "") _) (
      bind-Finishes (f v) _ (h v (omega arith))
        (λ _ _. each_property-Finishes rest (λ w p. h w (omega (arith, p)))))

  check_properties-Finishes :
      (t : String) (d : Fields)
      → ((v : Value) → size v ≤ size_fields d → Finishes (f v))
      → Finishes (check_properties f t d)
  unfolding check_properties check_object
  check_properties-Finishes t d h = go (t == "object")
    where
      go :
          (b : Bool)
          → Finishes (
              if b
              then check_object f d
              else refuse
                  (has "properties" d || has "required" d)
                  (refused Rule.properties_misplaced))
      go true = bind-Finishes (properties_of d) _ (properties_of-Finishes d) (λ ps e.
          bind-Finishes (required_of d) _ (required_of-Finishes d) (λ required _.
            then-Finishes _ _ (refuse-Finishes (repeats required) _) (
              then-Finishes _ _ (refuse-Finishes (not (is_within required (keys ps))) _) (
                each_property-Finishes ps
                  (λ v p. h v (omega (arith, p, properties_of-size d ps e)))))))
      go false = refuse-Finishes (has "properties" d || has "required" d) _

pub validate_schema-Finishes :
    (re : Patterns) (n : ℕ) (schema : Value)
    → size schema ≤ n
    → validate_schema re n schema ≢ err out_of_fuel
unfolding validate_schema size expect_mapping check_schema
validate_schema-Finishes re (suc n) (obj d) h =
    then-Finishes _ _ (refuse-Finishes (not (is_within (keys d) schema_fields)) _) (
      bind-Finishes (schema_type d) _ (schema_type-Finishes d) (λ t _.
        then-Finishes _ _ (check_additional-Finishes t d) (
          then-Finishes _ _ (check_enum_shape-Finishes d) (
            then-Finishes _ _ (check_pattern-Finishes re t d) (
              then-Finishes _ _
                (check_properties-Finishes (validate_schema re n) t d
                  (λ v p. validate_schema-Finishes re n v (omega (arith, p, h))))
                (then-Finishes _ _ (check_enum_values-Finishes t d) (λ e. cc e)))))))
validate_schema-Finishes re (suc n) null h = λ e. cc e
validate_schema-Finishes re (suc n) _ h = λ e. cc e
validate_schema-Finishes re zero v h = absurd (omega (arith, h, size-positive v))

-- The validation of a schema ends: any fuel from the size of the schema on gives one answer, which
-- is the one that `checked_schema` returns, and which is not that the fuel has run out.
pub checked_schema_ends :
    (re : Patterns) (n : ℕ) (schema : Value)
    → size schema ≤ n
    → (validate_schema re n schema ≡ checked_schema re schema)
      × (checked_schema re schema ≢ err out_of_fuel)
checked_schema_ends re n schema h = (
  fuel_irrelevant re n (size schema) schema h (omega arith),
  validate_schema-Finishes re (size schema) schema (omega arith),
)
