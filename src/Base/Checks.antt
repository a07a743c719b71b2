-- ===== src/Base/Checks.antt =====
-- Checks with no state: a chain of tests, each of which may raise, and what a chain that has
-- returned says of them.
use mathlib.Core.Path.{◌≡◌, refl}
use mathlib.Core.Bool.{Bool, true, false}
use mathlib.Core.List.{List, [], ◌∷◌}
use startup_ai_manager.Base.Effects.{Result, ok, err}
use startup_ai_manager.Base.Lists.{All}

-- `abbrev`, so that `ok a >>= f` computes wherever it stands.
infixl 5 ◌>>=◌ ◌>>◌
abbrev pub ◌>>=◌ : {E A B : Type 0} → Result E A → (A → Result E B) → Result E B
ok a >>= f = f a
err e >>= f = err e

abbrev pub ◌>>◌ : {E B : Type 0} → Result E (Unit {0}) → Result E B → Result E B
m >> k = m >>= λ _. k

-- `if test: raise e`
abbrev pub refuse : {E : Type 0} → Bool → E → Result E (Unit {0})
refuse true e = err e
refuse false e = ok tt

-- `for x in xs: check(x)`
unfoldable pub each : {E A : Type 0} → (A → Result E (Unit {0})) → List A → Result E (Unit {0})
each check [] = ok tt
each check (x ∷ xs) = check x >> each check xs

module _ {E A B : Type 0} where
  pub bind_ok :
      (m : Result E A) (f : A → Result E B) {b : B}
      → (m >>= f) ≡ ok b
      → (a : A) × (m ≡ ok a) × (f a ≡ ok b)
  bind_ok (ok a) f h = (a, refl, h)
  bind_ok (err e) f h = absurd (cc h)

module _ {E B : Type 0} where
  pub then_ok :
      (m : Result E (Unit {0})) (k : Result E B) {b : B}
      → (m >> k) ≡ ok b
      → (m ≡ ok tt) × (k ≡ ok b)
  then_ok (ok tt) k h = (refl, h)
  then_ok (err e) k h = absurd (cc h)

  pub refuse_ok :
      (t : Bool) (e : E) (k : Result E B) {b : B}
      → (refuse t e >> k) ≡ ok b
      → (t ≡ false) × (k ≡ ok b)
  refuse_ok true e k h = absurd (cc h)
  refuse_ok false e k h = (refl, h)

pub refuse_passed : {E : Type 0} (t : Bool) (e : E) → refuse t e ≡ ok tt → t ≡ false
refuse_passed true e h = absurd (cc h)
refuse_passed false e h = refl

pub each_ok :
    {E A : Type 0} (check : A → Result E (Unit {0})) (xs : List A)
    → each check xs ≡ ok tt
    → All (λ x. check x ≡ ok tt) xs
unfolding each
each_ok check [] h = tt
each_ok check (x ∷ xs) h =
    let (hx, hxs) = then_ok (check x) (each check xs) h in (hx, each_ok check xs hxs)

pub each-All :
    {E A : Type 0} (check : A → Result E (Unit {0})) (xs : List A)
    → All (λ x. check x ≡ ok tt) xs
    → each check xs ≡ ok tt
unfolding each
each-All check [] h = refl
each-All check (x ∷ xs) h = rw (h.0, each-All check xs h.1)
