-- ===== src/CapTable/Sums.antt =====
-- Sums over the holders of a cap table: the union of two lists of holders has each of them once, and
-- the order of a sum does not matter.
use startup_ai_manager.Base.{
  ◌≡◌, refl, sym, ap, ◌∙◌, arith, String, true, false, ◌||◌, ◌==◌, eq_iff, List, [], ◌∷◌,
  if◌then◌else◌, Bool-cases, inl, inr, subst, mem_text, sorted_by, insert_by, text_le,
}
use startup_ai_manager.Base.Int.{ℤ, ◌+ℤ◌, int_laws}
use startup_ai_manager.CapTable.Shares.{Balances, balance, total, holder_keys, union}

abbrev pub sum_over {ℓ} : {A : Type ℓ} → (A → ℤ) → List A → ℤ
sum_over f [] = ℤ.pos 0
sum_over f (x ∷ xs) = f x +ℤ sum_over f xs

-- No text stands twice in the list.
abbrev pub IsDistinct : List String → Type 0
IsDistinct [] = Unit
IsDistinct (x ∷ xs) = (mem_text x xs ≡ false) × IsDistinct xs

sum_over-insert_by :
    (f : String → ℤ) (x : String) (ys : List String)
    → sum_over f (insert_by (λ h. h) x ys) ≡ f x +ℤ sum_over f ys
unfolding insert_by
sum_over-insert_by f x [] = refl
sum_over-insert_by f x (y ∷ ys) = elim (Bool-cases (text_le x y)) [
  | inl e ↦ rw e refl
  | inr e ↦ rw (e, sum_over-insert_by f x ys) (omega int_laws)
]

pub sum_over-sorted_by :
    (f : String → ℤ) (xs : List String) → sum_over f (sorted_by (λ h. h) xs) ≡ sum_over f xs
unfolding sorted_by
sum_over-sorted_by f [] = refl
sum_over-sorted_by f (x ∷ xs) =
    sum_over-insert_by f x (sorted_by (λ h. h) xs) ∙ ap (λ n. f x +ℤ n) (sum_over-sorted_by f xs)

pub mem_text-union :
    (h : String) (xs ys : List String) → mem_text h (union xs ys) ≡ (mem_text h xs || mem_text h ys)
unfolding mem_text
mem_text-union h [] ys = refl
mem_text-union h (x ∷ xs) ys =
    ground (arith, mem_text-union h xs ys, mem_text-union x xs ys, eq_iff h x)

pub union-IsDistinct : (xs ys : List String) → IsDistinct ys → IsDistinct (union xs ys)
union-IsDistinct [] ys d = d
union-IsDistinct (x ∷ xs) ys d = elim (Bool-cases (mem_text x (union xs ys))) [
  | inl e ↦ rw e (union-IsDistinct xs ys d)
  | inr e ↦ rw e (e, union-IsDistinct xs ys d)
]

balance_absent :
    (h : String) (d : Balances) → mem_text h (holder_keys d) ≡ false → balance h d ≡ ℤ.pos 0
unfolding balance mem_text
balance_absent h [] a = refl
balance_absent h ((k, n) ∷ d) a = ground (arith, balance_absent h d, eq_iff h k, eq_iff k h)

-- A function that is `n` at `k`, and `g` elsewhere.
abbrev at : String → ℤ → (String → ℤ) → String → ℤ
at k n g h = if k == h then n else g h

sum_over-at_absent :
    (k : String) (n : ℤ) (g : String → ℤ) (hs : List String)
    → mem_text k hs ≡ false
    → sum_over (at k n g) hs ≡ sum_over g hs
unfolding mem_text
sum_over-at_absent k n g [] a = refl
sum_over-at_absent k n g (h ∷ hs) a = elim (Bool-cases (k == h)) [
  | inl e ↦ absurd (cc (rw e at a))
  | inr e ↦ rw (e, sum_over-at_absent k n g hs (rw e at a)) refl
]

sum_over-at :
    (k : String) (n : ℤ) (g : String → ℤ) (hs : List String)
    → IsDistinct hs
    → mem_text k hs ≡ true
    → g k ≡ ℤ.pos 0
    → sum_over (at k n g) hs ≡ n +ℤ sum_over g hs
unfolding mem_text
sum_over-at k n g [] d m z = absurd (cc m)
sum_over-at k n g (h ∷ hs) d m z = elim (Bool-cases (k == h)) [
  | inl e ↦
      let same = (eq_iff k h).0 e in
      let gone = sum_over-at_absent k n g hs (subst (λ x. mem_text x hs ≡ false) (sym same) d.0) in
      rw (e, gone, ap g (sym same) ∙ z) (omega int_laws)
  | inr e ↦ rw (e, sum_over-at k n g hs d.1 (rw e at m) z) (omega int_laws)
]

sum_over-zero : (hs : List String) → sum_over (λ h. ℤ.pos 0) hs ≡ ℤ.pos 0
sum_over-zero [] = refl
sum_over-zero (h ∷ hs) = rw (sum_over-zero hs) (omega int_laws)

-- The balances of a list of holders that has every holder of the dict once add up to its total.
pub sum_over-balance :
    (d : Balances) (hs : List String)
    → IsDistinct (holder_keys d)
    → IsDistinct hs
    → ((h : String) → mem_text h (holder_keys d) ≡ true → mem_text h hs ≡ true)
    → sum_over (λ h. balance h d) hs ≡ total d
unfolding balance total mem_text
sum_over-balance [] hs k l all = sum_over-zero hs
sum_over-balance ((h, n) ∷ d) hs k l all =
    sum_over-at h n (λ h. balance h d) hs l (all h (rw (self h) refl)) (balance_absent h d k.0)
    ∙ ap (λ m. n +ℤ m) (sum_over-balance d hs k.1 l (λ x m. all x (ground (arith, m))))
  where
    self : (h : String) → (h == h) ≡ true
    self h = (eq_iff h h).1 refl
