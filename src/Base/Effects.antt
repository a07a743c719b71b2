-- ===== src/Base/Effects.antt =====
-- Methods that change a database and may raise. What was written before a raise stays written,
-- since the caller owns the transaction, so the state comes back beside the error too.
use mathlib.Core.Path.{◌≡◌, refl, sym, ap, subst, ◌∙◌}
use mathlib.Core.Logic.{◌⊎◌, inl, inr}
use mathlib.Core.Bool.{Bool, true, false}

pub data Result {ℓ κ} (E : Type ℓ) (A : Type κ) : Type (ℓ ⊔ κ) where
  ok : A → Result E A
  err : E → Result E A

abbrev pub Exec {ℓ} : Type ℓ → Type ℓ → Type ℓ → Type ℓ
Exec E S A = S → Result E A × S

module _ {ℓ} {E S A : Type ℓ} where
  unfoldable pub pure : A → Exec E S A
  pure a s = (ok a, s)

  unfoldable pub raise : E → Exec E S A
  raise e s = (err e, s)

  unfoldable pub lift : Result E A → Exec E S A
  lift r s = (r, s)

  -- A check that reads the state and may raise.
  unfoldable pub asks : (S → Result E A) → Exec E S A
  asks f s = (f s, s)

  unfoldable pub gets : (S → A) → Exec E S A
  gets f s = (ok (f s), s)

-- `if test: raise e`
unfoldable pub raise_if : {E S : Type 0} → Bool → E → Exec E S (Unit {0})
raise_if true e s = (err e, s)
raise_if false e s = (ok tt, s)

-- Opening this opens the actions above too.
infixl 5 ◌>>=◌ ◌>>◌
unfoldable pub ◌>>=◌ {ℓ} : {E S A B : Type ℓ} → Exec E S A → (A → Exec E S B) → Exec E S B
unfolding pure raise lift asks gets raise_if
◌>>=◌ m f s = let (r, s') = m s in elim r [ ok a ↦ f a s' | err e ↦ (err e, s') ]

abbrev pub ◌>>◌ {ℓ} : {E S A B : Type ℓ} → Exec E S A → Exec E S B → Exec E S B
m >> k = m >>= λ _. k

-- A step that has returned hands its value and its state to the rest; one that has raised ends it.
module _ {ℓ} {E S A B : Type ℓ} where
  abbrev continue : (A → Exec E S B) → Result E A × S → Result E B × S
  continue f (ok a, s) = f a s
  continue f (err e, s) = (err e, s)

  bind-continue : (m : Exec E S A) (f : A → Exec E S B) (s : S) → (m >>= f) s ≡ continue f (m s)
  unfolding ◌>>=◌
  bind-continue m f s = let (r, s') = m s in split r s'
    where
      split :
          (r : Result E A) (s' : S)
          → elim r [ ok a ↦ f a s' | err e ↦ (err e, s') ] ≡ continue f (r, s')
      split (ok a) s' = refl
      split (err e) s' = refl

  pub bind-ok :
      (m : Exec E S A) (f : A → Exec E S B) (s : S) {a : A} {s' : S}
      → m s ≡ (ok a, s')
      → (m >>= f) s ≡ f a s'
  bind-ok m f s h = bind-continue m f s ∙ ap (continue f) h

  pub bind-err :
      (m : Exec E S A) (f : A → Exec E S B) (s : S) {e : E} {s' : S}
      → m s ≡ (err e, s')
      → (m >>= f) s ≡ (err e, s')
  bind-err m f s h = bind-continue m f s ∙ ap (continue f) h

-- A chain that has returned is two steps that have.
module _ {E S A B : Type 0} (m : Exec E S A) (f : A → Exec E S B) (s : S) where
  pub bind-inv :
      {b : B} {t : S}
      → (m >>= f) s ≡ (ok b, t)
      → (a : A) × (s' : S) × (m s ≡ (ok a, s')) × (f a s' ≡ (ok b, t))
  bind-inv {b} {t} h = go (m s).0 (m s).1 refl
    where
      go :
          (r : Result E A) (s' : S)
          → m s ≡ (r, s')
          → (a : A) × (s' : S) × (m s ≡ (ok a, s')) × (f a s' ≡ (ok b, t))
      go (ok a) s' e = (a, s', e, sym (bind-ok m f s e) ∙ h)
      go (err x) s' e = absurd (cc (sym (bind-err m f s e) ∙ h))

pub ok-injective {ℓ κ} :
    {E : Type ℓ} {A : Type κ} {a b : A} → ◌≡◌ {A = Result E A} (ok a) (ok b) → a ≡ b
ok-injective h = cc

-- How a call ended, with the equation.
pub Result-cases {ℓ κ} :
    {E : Type ℓ} {A : Type κ} (r : Result E A) → ((a : A) × (r ≡ ok a)) ⊎ ((e : E) × (r ≡ err e))
Result-cases (ok a) = inl (a, refl)
Result-cases (err e) = inr (e, refl)

-- `P` holds of the outcome of `m` in the state `s`.
pub record Ends {E S B : Type 0} (P : Result E B × S → Type 0) (s : S) (m : Exec E S B)
    : Type 0 where
  pub at : P (m s)

-- What holds of every outcome that leaves the state alone by raising holds of a chain of checks, if
-- it holds of what follows them.
module _ {E S B : Type 0} {P : Result E B × S → Type 0} {s : S}
    (raised : (e : E) → P (err e, s)) where
  pub raise_if-Ends :
      (b : Bool) (e : E) (k : Exec E S B) → (b ≡ false → Ends P s k) → Ends P s (raise_if b e >> k)
  unfolding ◌>>=◌
  raise_if-Ends true e k h = record { at = raised e }
  raise_if-Ends false e k h = record { at = (h refl).at }

  pub lift-Ends :
      {A : Type 0} (r : Result E A) (f : A → Exec E S B)
      → ((a : A) → r ≡ ok a → Ends P s (f a))
      → Ends P s (lift r >>= f)
  unfolding ◌>>=◌
  lift-Ends (ok a) f h = record { at = (h a refl).at }
  lift-Ends (err e) f h = record { at = raised e }

  pub asks-Ends :
      {A : Type 0} (g : S → Result E A) (f : A → Exec E S B)
      → ((a : A) → g s ≡ ok a → Ends P s (f a))
      → Ends P s (asks g >>= f)
  unfolding ◌>>=◌
  asks-Ends {A} g f h = record { at = (go (g s) h).at }
    where
      go : (r : Result E A) → ((a : A) → r ≡ ok a → Ends P s (f a)) → Ends P s (lift r >>= f)
      go (ok a) k = record { at = (k a refl).at }
      go (err e) k = record { at = raised e }

  pub gets-Ends :
      {A : Type 0} (g : S → A) (f : A → Exec E S B) → Ends P s (f (g s)) → Ends P s (gets g >>= f)
  unfolding ◌>>=◌
  gets-Ends g f h = record { at = h.at }

-- The same for a step that may write.
module _ {E S A B : Type 0} {P : Result E B × S → Type 0} (m : Exec E S A) (f : A → Exec E S B)
    (s : S) where
  pub bind-Ends :
      ((e : E) (s' : S) → m s ≡ (err e, s') → P (err e, s'))
      → ((a : A) (s' : S) → m s ≡ (ok a, s') → Ends P s' (f a))
      → Ends P s (m >>= f)
  bind-Ends fails goes = go (m s).0 (m s).1 refl
    where
      go : (r : Result E A) (s' : S) → m s ≡ (r, s') → Ends P s (m >>= f)
      go (ok a) s' e = record { at = subst P (sym (bind-ok m f s e)) (goes a s' e).at }
      go (err x) s' e = record { at = subst P (sym (bind-err m f s e)) (fails x s' e) }

-- A check that passes.
module _ {E S B : Type 0} (s : S) where
  pub raise_if_passes :
      (b : Bool) (e : E) (k : Exec E S B) → b ≡ false → (raise_if b e >> k) s ≡ k s
  unfolding ◌>>=◌
  raise_if_passes b e k h = rw h

  pub lift_passes :
      {A : Type 0} (r : Result E A) (f : A → Exec E S B) {a : A}
      → r ≡ ok a
      → (lift r >>= f) s ≡ f a s
  unfolding ◌>>=◌
  lift_passes r f h = bind-ok (lift r) f s (ap (λ r. (r, s)) h)

  pub asks_passes :
      {A : Type 0} (g : S → Result E A) (f : A → Exec E S B) {a : A}
      → g s ≡ ok a
      → (asks g >>= f) s ≡ f a s
  unfolding ◌>>=◌
  asks_passes g f h = bind-ok (asks g) f s (ap (λ r. (r, s)) h)

-- The same where what is known of the step is a predicate on its outcome.
pub step-Ends :
    {E S A B : Type 0} (Q : Result E A × S → Type 0) (P : Result E B × S → Type 0) (m : Exec E S A)
    (f : A → Exec E S B) (s : S)
    → Ends Q s m
    → ((e : E) (s' : S) → Q (err e, s') → P (err e, s'))
    → ((a : A) (s' : S) → Q (ok a, s') → Ends P s' (f a))
    → Ends P s (m >>= f)
step-Ends Q P m f s h fails goes =
    bind-Ends m f s (λ e s' q. fails e s' (subst Q q h.at)) (λ a s' q. goes a s' (subst Q q h.at))

pub weaken-Ends :
    {E S A : Type 0} (Q P : Result E A × S → Type 0) (m : Exec E S A) (s : S)
    → ((o : Result E A × S) → Q o → P o)
    → Ends Q s m
    → Ends P s m
weaken-Ends Q P m s f h = record { at = f (m s) h.at }
