-- ===== src/Json.antt =====
-- Values that `json.loads` returns, and the dict operations that the program applies to them.
-- A dict is its entries in insertion order. Floats are left out: no code modelled here reads one.
pub mod Equality
pub mod Equals
pub mod Entries
use startup_ai_manager.Base.{
  ◌≡◌, String, Bool, true, false, Option, none, some, List, [], ◌∷◌, ◌==◌, if◌then◌else◌, is_blank,
  ltb,
}
use startup_ai_manager.Base.Int.{ℤ}

mutual
  pub data Fields : Type 0 where
    end : Fields
    field : (key : String) (value : Value) (rest : Fields) → Fields

  pub data Items : Type 0 where
    nil : Items
    cons : (item : Value) (rest : Items) → Items

  pub data Value : Type 0 where
    null : Value
    bool : Bool → Value
    num : ℤ → Value
    str : String → Value
    arr : Items → Value
    obj : Fields → Value

-- `d.get(key)`, where `none` stands for a key that is absent.
unfoldable pub get : String → Fields → Option Value
get k end = none
get k (field j v fs) = if j == k then some v else get k fs

-- `d.get(key)` as Python returns it: `None` for a key that is absent.
unfoldable pub get_value : String → Fields → Value
get_value k fs = elim (get k fs) [ none ↦ null | some v ↦ v ]

pub get_value-some : (k : String) (d : Fields) (v : Value) → get k d ≡ some v → get_value k d ≡ v
unfolding get_value
get_value-some k d v h = rw (h, get_value)

-- `d[key] = v`
unfoldable pub put : String → Value → Fields → Fields
put k v end = field k v end
put k v (field j w fs) = if j == k then field j v fs else field j w (put k v fs)

-- `set(d)`
abbrev pub keys : Fields → List String
keys end = []
keys (field k v fs) = k ∷ keys fs

-- `isinstance(v, str) and v.strip()`
unfoldable pub is_text : Value → Bool
is_text (str s) = if is_blank s then false else true
is_text _ = false

-- `v is not None`
abbrev pub is_present : Value → Bool
is_present null = false
is_present _ = true

-- What a value stands for in `v or default`.
unfoldable pub is_truthy : Value → Bool
is_truthy null = false
is_truthy (bool b) = b
is_truthy (num (ℤ.pos n)) = ltb 0 n
is_truthy (num (ℤ.negsuc _)) = true
is_truthy (str s) = if s == "" then false else true
is_truthy (arr nil) = false
is_truthy (arr _) = true
is_truthy (obj end) = false
is_truthy (obj _) = true
