-- ===== src/Base/Texts.antt =====
-- Python text: `str.strip()` as a test for blank text, membership in a set of texts, `sorted`.
use Prim.Native.Nat.{ℕ, Ordering}
use Prim.Native.Char.{code}
use Prim.Native.String.{String, compare}
use mathlib.Core.Path.{◌≡◌, refl}
use mathlib.Core.Logic.{◌≢◌}
use native.Mathlib.Omega.{arith}
use mathlib.Core.Bool.{Bool, true, false, ◌&&◌, ◌||◌}
use mathlib.Core.List.{List, [], ◌∷◌}
use text.Mathlib.Text.{◌==◌}
use text.Mathlib.TextEquality.{eq_iff}
use startup_ai_manager.Base.Tests.{eqb, leb, if◌then◌else◌}

-- `str.isspace` on one character: the code points that Python strips.
abbrev pub is_space : ℕ → Bool
is_space c =
    (leb 9 c && leb c 13)
    || (leb 28 c && leb c 32)
    || eqb c 133
    || eqb c 160
    || eqb c 5760
    || (leb 8192 c && leb c 8202)
    || eqb c 8232
    || eqb c 8233
    || eqb c 8239
    || eqb c 8287
    || eqb c 12288

-- `not s.strip()`
unfoldable pub is_blank : String → Bool
is_blank String.[] = true
is_blank (String.◌∷◌ c s) = is_space (code c) && is_blank s

-- `str.strip()`
abbrev pub strip_end : String → String
strip_end String.[] = ""
strip_end (String.◌∷◌ c s) =
    let rest = strip_end s in if is_blank (String.◌∷◌ c s) then "" else String.◌∷◌ c rest

abbrev pub strip_start : String → String
strip_start String.[] = ""
strip_start (String.◌∷◌ c s) =
    let rest = strip_start s in if is_space (code c) then rest else String.◌∷◌ c s

abbrev pub strip : String → String
strip s = strip_end (strip_start s)

-- `s in {...}` on a set of texts
unfoldable pub mem_text : String → List String → Bool
mem_text s [] = false
mem_text s (t ∷ ts) = s == t || mem_text s ts

abbrev pub text_le : String → String → Bool
text_le s t = elim (compare s t) [ Ordering.gt ↦ false | _ ↦ true ]

pub eq_sym : (s t : String) → (s == t) ≡ (t == s)
eq_sym s t = ground (arith, eq_iff s t, eq_iff t s)

-- `sorted(xs, key=...)` on texts: stable, by code points.
module _ {ℓ} {A : Type ℓ} (key : A → String) where
  unfoldable pub insert_by : A → List A → List A
  insert_by x [] = x ∷ []
  insert_by x (y ∷ ys) = if text_le (key x) (key y) then x ∷ y ∷ ys else y ∷ insert_by x ys

  unfoldable pub sorted_by : List A → List A
  unfolding insert_by
  sorted_by [] = []
  sorted_by (x ∷ xs) = insert_by x (sorted_by xs)

  insert_by-ne_nil : (x : A) (ys : List A) → insert_by x ys ≢ []
  unfolding insert_by
  insert_by-ne_nil x [] h = cc h
  insert_by-ne_nil x (y ∷ ys) h = ground arith

  pub sorted_by-nil : (xs : List A) → sorted_by xs ≡ [] → xs ≡ []
  unfolding sorted_by
  sorted_by-nil [] h = refl
  sorted_by-nil (x ∷ xs) h = absurd (insert_by-ne_nil x (sorted_by xs) h)
