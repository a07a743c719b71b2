-- ===== src/Facts/Lookup.antt =====
-- Lookups in the tables of facts and todos after a row is added.
use startup_ai_manager.Base.{
  ℕ, ◌≡◌, refl, ◌∙◌, arith, String, Bool, true, ◌||◌, Option, none, some, List, [], ◌∷◌, ◌++◌,
  Bool-cases, Option-cases, inl, inr, if◌then◌else◌, eq_iff, any_of, eq_refl,
}
use startup_ai_manager.Facts.Candidate.{
  ExtractedFact, Coordinate, entity_coordinate, same_coordinate, entity_of,
}
use startup_ai_manager.Facts.Tables.{Fact, coordinate_of, is_current_at, find_last}
use startup_ai_manager.Facts.Todos.{new_fact, current_fact, same_option}
use startup_ai_manager.Facts.Consolidation.{is_same_fact}

pub any_of-append :
    {A : Type 0} (p : A → Bool) (xs : List A) (y : A)
    → any_of p (xs ++ y ∷ []) ≡ (any_of p xs || p y)
any_of-append p [] y = ground arith
any_of-append p (x ∷ xs) y = ground (arith, any_of-append p xs y)

pub find_last-append :
    {A : Type 0} (p : A → Bool) (xs : List A) (y : A)
    → find_last p (xs ++ y ∷ []) ≡ (if p y then some y else find_last p xs)
unfolding find_last
find_last-append p [] y = refl
find_last-append p (x ∷ xs) y = elim (Bool-cases (p y)) [
  | inl e ↦ rw (find_last-append p xs y, e) refl
  | inr e ↦ rw (find_last-append p xs y, e) refl
]

find_last-narrower :
    {A : Type 0} (p q : A → Bool) (xs : List A)
    → ((x : A) → p x ≡ true → q x ≡ true)
    → find_last q xs ≡ none
    → find_last p xs ≡ none
unfolding find_last
find_last-narrower p q [] i h = refl
find_last-narrower p q (x ∷ xs) i h = elim (Option-cases (find_last q xs)) [
  | inr (y, e) ↦ absurd (cc (rw (e, find_last) at h))
  | inl e ↦ elim (Bool-cases (p x)) [
    | inl yes_p ↦ absurd (cc (rw (e, i x yes_p, find_last) at h))
    | inr no_p ↦ rw (find_last-narrower p q xs i e, no_p) refl
  ]
]

same_coordinate_trans :
    (a b c : Coordinate)
    → same_coordinate a b ≡ true
    → same_coordinate c b ≡ true
    → same_coordinate a c ≡ true
same_coordinate_trans a b c h k = ground (
  arith,
  eq_iff a.company_id b.company_id,
  eq_iff c.company_id b.company_id,
  eq_iff a.company_id c.company_id,
  eq_iff a.entity b.entity,
  eq_iff c.entity b.entity,
  eq_iff a.entity c.entity,
  eq_iff a.attribute b.attribute,
  eq_iff c.attribute b.attribute,
  eq_iff a.attribute c.attribute,
  eq_iff a.period b.period,
  eq_iff c.period b.period,
  eq_iff a.period c.period,
)

-- A fact that is added where there is no current fact leaves the current facts elsewhere.
pub current_fact-append :
    (at : Coordinate) (g f : Fact) (fs : List Fact)
    → current_fact (coordinate_of g) fs ≡ none
    → current_fact at fs ≡ some f
    → current_fact at (fs ++ g ∷ []) ≡ some f
unfolding current_fact
current_fact-append at g f fs free h = elim (Bool-cases (is_current_at at g)) [
  | inr other ↦ find_last-append (is_current_at at) fs g ∙ rw other h
  | inl same ↦
      let narrower =
        find_last-narrower (is_current_at at) (is_current_at (coordinate_of g)) fs
          (λ x m. ground (arith, same_coordinate_trans (coordinate_of x) at (coordinate_of g)))
          free in
      absurd (cc (narrower, h))
]

same_option_refl : (o : Option String) → same_option o o ≡ true
same_option_refl none = refl
same_option_refl (some s) = eq_refl s

pub is_same_fact-new :
    (c : ExtractedFact) (now : String) (n : ℕ) → is_same_fact c (new_fact c "auto" now n) ≡ true
is_same_fact-new c now n = rw (eq_refl c.value, same_option_refl c.unit) refl

-- A fact that has just been written is the current one at its coordinate.
pub current_fact-new :
    (c : ExtractedFact) (now : String) (n : ℕ) (fs : List Fact)
    → current_fact (entity_coordinate c) (fs ++ new_fact c "auto" now n ∷ [])
      ≡ some (new_fact c "auto" now n)
unfolding current_fact
current_fact-new c now n fs =
    find_last-append (is_current_at (entity_coordinate c)) fs (new_fact c "auto" now n)
    ∙ rw (eq_refl c.company_id, eq_refl (entity_of c), eq_refl c.metric, eq_refl c.period) refl
