-- ===== src/Contracts/Expect.antt =====
-- app/contracts/phase0.py: the checks on one value, the names and the versions.
use Prim.Native.Char.{code}
use startup_ai_manager.Base.{
  ℕ, String, Bool, true, false, not, ◌&&◌, ◌||◌, if◌then◌else◌, List, [], ◌∷◌, eqb, leb, is_blank,
  mem_text, all_of, Result, ok, err, ◌==◌,
}
use startup_ai_manager.Base.Checks.{◌>>◌, refuse}
use startup_ai_manager.Json.{Value, Fields, Items, nil, cons, str, arr, obj}
use startup_ai_manager.Contracts.{Error, refused, Rule}

unfoldable pub expect_mapping : Value → Result Error Fields
expect_mapping (obj fs) = ok fs
expect_mapping _ = err (refused Rule.not_an_object)

unfoldable pub expect_string : Value → Result Error String
expect_string (str s) = if is_blank s then err (refused Rule.not_text) else ok s
expect_string _ = err (refused Rule.not_text)

-- The texts among the items of an array.
unfoldable pub item_texts : Items → List String
item_texts nil = []
item_texts (cons (str s) rest) = s ∷ item_texts rest
item_texts (cons _ rest) = item_texts rest

-- `not any(not isinstance(item, str) for item in value)`
unfoldable pub all_strings : Items → Bool
all_strings nil = true
all_strings (cons (str s) rest) = all_strings rest
all_strings (cons _ rest) = false

-- `not any(not item ...)` on texts
abbrev pub all_nonempty : List String → Bool
all_nonempty ts = all_of (λ t. not (t == "")) ts

-- `len(set(value)) != len(value)`
unfoldable pub repeats : List String → Bool
repeats [] = false
repeats (t ∷ ts) = mem_text t ts || repeats ts

-- `not (set(ts) - allowed)`
unfoldable pub is_within : List String → List String → Bool
is_within ts allowed = all_of (λ t. mem_text t allowed) ts

abbrev pub is_nil : Items → Bool
is_nil nil = true
is_nil (cons _ _) = false

unfoldable pub expect_unique_strings : Value → List String → Bool → Result Error (List String)
expect_unique_strings (arr items) allowed require_nonempty = do
  refuse (require_nonempty && is_nil items) (refused Rule.not_an_array)
  refuse (not (all_strings items && all_nonempty (item_texts items))) (refused Rule.not_all_texts)
  refuse (repeats (item_texts items)) (refused Rule.has_duplicates)
  refuse (not (is_within (item_texts items) allowed)) (refused Rule.unauthorized_value)
  ok (item_texts items)
expect_unique_strings _ allowed require_nonempty = err (refused Rule.not_an_array)

abbrev in_range : ℕ → ℕ → ℕ → Bool
in_range lo hi c = leb lo c && leb c hi

-- `[a-z0-9_.-]*`
unfoldable pub is_name_rest : String → Bool
is_name_rest String.[] = true
is_name_rest (String.◌∷◌ c s) =
    (in_range 97 122 (code c)
      || in_range 48 57 (code c)
      || eqb (code c) 95
      || in_range 45 46 (code c))
    && is_name_rest s

-- `_NAME.fullmatch(name)`
unfoldable pub is_name : String → Bool
is_name String.[] = false
is_name (String.◌∷◌ c s) = in_range 97 122 (code c) && is_name_rest s

-- `[0-9A-Za-z.-]*`
unfoldable pub is_label_rest : String → Bool
is_label_rest String.[] = true
is_label_rest (String.◌∷◌ c s) =
    (in_range 48 57 (code c)
      || in_range 65 90 (code c)
      || in_range 97 122 (code c)
      || in_range 45 46 (code c))
    && is_label_rest s

-- The number of a version that is being read.
pub data Part : Type 0 where
  major minor patch : Part

-- `_VERSION.fullmatch(version)`, from the number `part`, of which a digit has been read if `seen`.
unfoldable pub is_version_from : (ℕ → Bool) → Part → Bool → String → Bool
is_version_from digit Part.patch seen String.[] = seen
is_version_from digit _ seen String.[] = false
is_version_from digit Part.major seen (String.◌∷◌ c s) =
    if digit (code c)
    then is_version_from digit Part.major true s
    else seen && eqb (code c) 46 && is_version_from digit Part.minor false s
is_version_from digit Part.minor seen (String.◌∷◌ c s) =
    if digit (code c)
    then is_version_from digit Part.minor true s
    else seen && eqb (code c) 46 && is_version_from digit Part.patch false s
is_version_from digit Part.patch seen (String.◌∷◌ c s) =
    if digit (code c)
    then is_version_from digit Part.patch true s
    else seen && (eqb (code c) 43 || eqb (code c) 45) && not (s == "") && is_label_rest s

unfoldable pub is_version : (ℕ → Bool) → String → Bool
is_version digit s = is_version_from digit Part.major false s
