-- ===== src/Facts/Current.antt =====
-- The current fact at a coordinate.
use startup_ai_manager.Base.{
  ◌≡◌, refl, sym, ◌∙◌, subst, String, Bool, true, false, none, List, [], ◌∷◌, ◌++◌, All, All-append,
  Bool-cases, Option-cases, inl, inr, eq_sym,
}
use startup_ai_manager.Facts.Candidate.{
  ExtractedFact, Coordinate, entity_coordinate, same_coordinate,
}
use startup_ai_manager.Facts.Tables.{Fact, Db, coordinate_of, is_current, is_current_at, find_last}
use startup_ai_manager.Facts.Todos.{Service, new_fact, current_fact}
use startup_ai_manager.Facts.Consolidation.{consolidate_one, consolidate_all}
use startup_ai_manager.Facts.Written.{consolidate_one-facts}

-- No two current facts stand at one coordinate.
abbrev pub IsUnambiguous : List Fact → Type 0
IsUnambiguous [] = Unit
IsUnambiguous (f ∷ fs) =
    (is_current f ≡ true → All (λ g. is_current_at (coordinate_of f) g ≡ false) fs)
    × IsUnambiguous fs

same_coordinate_sym : (a b : Coordinate) → same_coordinate a b ≡ same_coordinate b a
same_coordinate_sym a b =
    rw
      (
        eq_sym a.company_id b.company_id,
        eq_sym a.entity b.entity,
        eq_sym a.attribute b.attribute,
        eq_sym a.period b.period,
      )
      refl

pub find_last-none :
    {A : Type 0} (p : A → Bool) (xs : List A) → find_last p xs ≡ none → All (λ x. p x ≡ false) xs
unfolding find_last
find_last-none p [] h = tt
find_last-none p (x ∷ xs) h = elim (Option-cases (find_last p xs)) [
  | inr (y, e) ↦ absurd (cc (rw (e, find_last) at h))
  | inl e ↦ elim (Bool-cases (p x)) [
    | inl yes_p ↦ absurd (cc (rw (e, yes_p, find_last) at h))
    | inr no_p ↦ (no_p, find_last-none p xs e)
  ]
]

other_coordinate :
    (f g : Fact)
    → is_current f ≡ true
    → is_current_at (coordinate_of g) f ≡ false
    → is_current_at (coordinate_of f) g ≡ false
other_coordinate f g c h =
    let apart : same_coordinate (coordinate_of f) (coordinate_of g) ≡ false = rw c at h in
    let back = sym (same_coordinate_sym (coordinate_of f) (coordinate_of g)) ∙ apart in
    elim (Bool-cases (is_current g)) [ inl e ↦ rw (e, back) refl | inr e ↦ rw e refl ]

-- A fact at a coordinate that has no current fact may be added.
append-IsUnambiguous :
    (fs : List Fact) (g : Fact)
    → IsUnambiguous fs
    → All (λ f. is_current_at (coordinate_of g) f ≡ false) fs
    → IsUnambiguous (fs ++ g ∷ [])
append-IsUnambiguous [] g u free = ((λ c. tt), tt)
append-IsUnambiguous (f ∷ fs) g u free = (
  (λ c.
      All-append (λ h. is_current_at (coordinate_of f) h ≡ false) fs (g ∷ []) (u.0 c)
        (other_coordinate f g c free.0, tt)),
  append-IsUnambiguous fs g u.1 free.1,
)

module _ (service : Service) where
  consolidate_one-IsUnambiguous :
      (c : ExtractedFact) (now : String) (s : Db)
      → IsUnambiguous s.facts
      → IsUnambiguous (consolidate_one service c now s).1.facts
  unfolding current_fact
  consolidate_one-IsUnambiguous c now s u = elim (consolidate_one-facts service c now s) [
    | inl same ↦ subst IsUnambiguous (sym same) u
    | inr (auto, absent, added) ↦ subst IsUnambiguous (sym added) (
        append-IsUnambiguous s.facts (new_fact c "auto" now s.next_fact) u
          (find_last-none (is_current_at (entity_coordinate c)) s.facts absent))
  ]

  -- If no two current facts stand at one coordinate, none do after a consolidation of any candidates.
  pub consolidate_all-IsUnambiguous :
      (cs : List ExtractedFact) (now : String) (s : Db)
      → IsUnambiguous s.facts
      → IsUnambiguous (consolidate_all service cs now s).1.facts
  unfolding consolidate_all
  consolidate_all-IsUnambiguous [] now s u = u
  consolidate_all-IsUnambiguous (c ∷ cs) now s u =
      consolidate_all-IsUnambiguous cs now (consolidate_one service c now s).1
        (consolidate_one-IsUnambiguous c now s u)
