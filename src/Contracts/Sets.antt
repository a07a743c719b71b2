-- ===== src/Contracts/Sets.antt =====
-- app/contracts/phase0.py: `set(a) - b` and `k in d`, as relations.
use startup_ai_manager.Base.{
  String, Bool, true, false, ◌||◌, some, List, [], ◌∷◌, mem_text, ◌==◌, eq_iff, eq_refl, eq_sym,
  ◌≡◌, ◌↔◌, refl, sym, arith, Bool-cases, inl, inr, ◌∙◌, and-true, ◌⊎◌, subst, All,
}
use startup_ai_manager.Json.{Value, Fields, end, field, get, keys}
use startup_ai_manager.Contracts.Expect.{is_within}

or-true : (a b : Bool) → (a || b) ≡ true → (a ≡ true) ⊎ (b ≡ true)
or-true true b h = inl refl
or-true false b h = inr h

pub mem_text-is_within :
    (k : String) (ts us : List String)
    → is_within ts us ≡ true
    → mem_text k ts ≡ true
    → mem_text k us ≡ true
unfolding is_within mem_text
mem_text-is_within k (t ∷ ts) us h m =
    let (ht, hts) = and-true _ _ h in
    elim (or-true (k == t) _ m) [
      | inl e ↦ subst (λ x. mem_text x us ≡ true) (sym ((eq_iff k t).0 e)) ht
      | inr e ↦ mem_text-is_within k ts us hts e
    ]
mem_text-is_within k [] us h m = absurd (cc m)

is_within-weaken :
    (ts us : List String)
    → ((k : String) → mem_text k ts ≡ true → mem_text k us ≡ true)
    → is_within ts us ≡ true
unfolding is_within mem_text
is_within-weaken [] us h = refl
is_within-weaken (t ∷ ts) us h =
    rw (h t (rw (eq_refl t)), is_within-weaken ts us (λ k m. h k (ground arith)))

-- A set is within another if each of its texts is in the other.
pub is_within_iff :
    (ts us : List String)
    → (is_within ts us ≡ true) ↔ ((k : String) → mem_text k ts ≡ true → mem_text k us ≡ true)
is_within_iff ts us = ((λ h k. mem_text-is_within k ts us h), is_within-weaken ts us)

pub get-mem_text :
    (k : String) (d : Fields) {v : Value} → get k d ≡ some v → mem_text k (keys d) ≡ true
unfolding get mem_text
get-mem_text k end h = absurd (cc h)
get-mem_text k (field j w rest) h = elim (Bool-cases (k == j)) [
  | inl e ↦ rw (e, ◌||◌)
  | inr e ↦ let p = sym (eq_sym k j) ∙ e in rw (e, get-mem_text k rest (rw (p) at h))
]

pub mem_text-get :
    (k : String) (d : Fields) → mem_text k (keys d) ≡ true → (v : Value) × (get k d ≡ some v)
unfolding get mem_text
mem_text-get k end h = absurd (cc h)
mem_text-get k (field j w rest) h = elim (Bool-cases (j == k)) [
  | inl e ↦ (w, rw (e))
  | inr e ↦
      let p = eq_sym k j ∙ e in let (v, q) = mem_text-get k rest (rw (p) at h) in (v, rw (e, q))
]

-- What holds of all of a list of texts holds of one of them.
pub All-mem_text {ℓ} :
    (P : String → Type ℓ) (s : String) (ts : List String) → All P ts → mem_text s ts ≡ true → P s
unfolding mem_text
All-mem_text P s [] h m = absurd (cc m)
All-mem_text P s (t ∷ ts) h m = elim (or-true (s == t) _ m) [
  | inl e ↦ subst P (sym ((eq_iff s t).0 e)) h.0
  | inr e ↦ All-mem_text P s ts h.1 e
]
