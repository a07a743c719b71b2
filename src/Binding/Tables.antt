-- ===== src/Binding/Tables.antt =====
-- app/facts_tree/company_binding.py: the rows that a lookup finds after a write.
use startup_ai_manager.Base.{
  String, true, false, Option, none, some, Option-cases, List, [], ◌∷◌, ◌++◌, keep-append, ◌==◌,
  eq_iff, if◌then◌else◌, Bool-cases, inl, inr, ◌≡◌, refl, sym, ap, subst, ◌∙◌,
}
use startup_ai_manager.Binding.{Binding, HistoryRow}
use startup_ai_manager.Binding.Checks.{rows_of}
use startup_ai_manager.Binding.Store.{find_binding, update_binding}

pub find_binding-company :
    (c : String) (bs : List Binding) {b : Binding} → find_binding c bs ≡ some b → b.company_id ≡ c
unfolding find_binding
find_binding-company c [] h = absurd (cc h)
find_binding-company c (a ∷ bs) h = elim (Bool-cases (a.company_id == c)) [
  | inl e ↦
      subst (λ x. Binding.company_id x ≡ c) (some-injective (rw (e) at h))
        ((eq_iff a.company_id c).0 e)
  | inr e ↦ find_binding-company c bs (rw (e) at h)
]
  where
    some-injective : {a b : Binding} → ◌≡◌ {A = Option Binding} (some a) (some b) → a ≡ b
    some-injective q = cc q

pub find_binding-append_some :
    (c : String) (bs : List Binding) (a : Binding) {b : Binding}
    → find_binding c bs ≡ some b
    → find_binding c (bs ++ a ∷ []) ≡ some b
unfolding find_binding
find_binding-append_some c [] a h = absurd (cc h)
find_binding-append_some c (x ∷ bs) a h = elim (Bool-cases (x.company_id == c)) [
  | inl e ↦ rw (e) (rw (e) at h)
  | inr e ↦ rw (e, find_binding-append_some c bs a (rw (e) at h))
]

pub find_binding-append_none :
    (c : String) (bs : List Binding) (a : Binding)
    → find_binding c bs ≡ none
    → find_binding c (bs ++ a ∷ []) ≡ (if a.company_id == c then some a else none)
unfolding find_binding
find_binding-append_none c [] a h = refl
find_binding-append_none c (x ∷ bs) a h = elim (Bool-cases (x.company_id == c)) [
  | inl e ↦ absurd (cc (rw (e) at h))
  | inr e ↦ rw (e, find_binding-append_none c bs a (rw (e) at h))
]

pub find_binding-append_other :
    (c : String) (bs : List Binding) (a : Binding)
    → (a.company_id == c) ≡ false
    → find_binding c (bs ++ a ∷ []) ≡ find_binding c bs
find_binding-append_other c bs a n = elim (Option-cases (find_binding c bs)) [
  | inl e ↦ find_binding-append_none c bs a e ∙ ap (λ b. if b then some a else none) n ∙ sym e
  | inr (b, e) ↦ find_binding-append_some c bs a e ∙ sym e
]

abbrev pub on_found : (Binding → Binding) → Option Binding → Option Binding
on_found f none = none
on_found f (some b) = some (f b)

module _ (f : Binding → Binding)
    (keeps : (b : Binding) → Binding.company_id (f b) ≡ b.company_id) where
  pub find_binding-update :
      (c : String) (bs : List Binding)
      → find_binding c (update_binding c f bs) ≡ on_found f (find_binding c bs)
  unfolding find_binding update_binding
  find_binding-update c [] = refl
  find_binding-update c (b ∷ bs) = elim (Bool-cases (b.company_id == c)) [
    | inl e ↦ rw (e, find_binding, keeps b, e)
    | inr e ↦ rw (e, find_binding, e, find_binding-update c bs)
  ]

  pub find_binding-update_other :
      (c d : String) (bs : List Binding)
      → (d == c) ≡ false
      → find_binding c (update_binding d f bs) ≡ find_binding c bs
  unfolding find_binding update_binding
  find_binding-update_other c d [] n = refl
  find_binding-update_other c d (b ∷ bs) n = elim (Bool-cases (b.company_id == d)) [
    | inl e ↦
        let p = (eq_iff b.company_id d).0 e in
        let q = subst (λ x. (x == c) ≡ false) (sym p) n in
        rw (e, find_binding, keeps b, q, find_binding-update_other c d bs n)
    | inr e ↦ rw (e, find_binding, find_binding-update_other c d bs n)
  ]

pub rows_of-append_own :
    (c : String) (rs : List HistoryRow) (r : HistoryRow)
    → (r.company_id == c) ≡ true
    → rows_of c (rs ++ r ∷ []) ≡ rows_of c rs ++ r ∷ []
unfolding rows_of
rows_of-append_own c rs r e =
    keep-append (λ r. HistoryRow.company_id r == c) rs (r ∷ [])
    ∙ ap (λ b. rows_of c rs ++ elim b [ true ↦ r ∷ [] | false ↦ [] ]) e

pub rows_of-append_other :
    (c : String) (rs : List HistoryRow) (r : HistoryRow)
    → (r.company_id == c) ≡ false
    → rows_of c (rs ++ r ∷ []) ≡ rows_of c rs
unfolding rows_of
rows_of-append_other c rs r e =
    keep-append (λ r. HistoryRow.company_id r == c) rs (r ∷ [])
    ∙ ap (λ b. rows_of c rs ++ elim b [ true ↦ r ∷ [] | false ↦ [] ]) e
    ∙ append-nil (rows_of c rs)
  where
    append-nil : (xs : List HistoryRow) → xs ++ [] ≡ xs
    append-nil [] = refl
    append-nil (x ∷ xs) = ap (λ ys. x ∷ ys) (append-nil xs)
