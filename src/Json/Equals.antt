-- ===== src/Json/Equals.antt =====
-- Python's `==` on values: `True == 1`, and a dict is equal to one with its entries in another order.
use startup_ai_manager.Json.{
  Value, Fields, Items, nil, cons, end, field, null, bool, num, str, arr, obj, get, keys,
}
use startup_ai_manager.Base.{String, Bool, true, false, ◌&&◌, ◌||◌, eqb, length, none, some, ◌==◌}
use startup_ai_manager.Base.Int.{ℤ, pos, negsuc}

abbrev equals_int : ℤ → ℤ → Bool
equals_int (pos m) (pos n) = eqb m n
equals_int (negsuc m) (negsuc n) = eqb m n
equals_int _ _ = false

abbrev from_bool : Bool → ℤ
from_bool true = pos 1
from_bool false = pos 0

-- `v == n` for an integer, or a Boolean that stands for one
abbrev equals_number : ℤ → Value → Bool
equals_number m (num n) = equals_int m n
equals_number m (bool b) = equals_int m (from_bool b)
equals_number m _ = false

abbrev equals_text : String → Value → Bool
equals_text s (str t) = s == t
equals_text s _ = false

unfoldable mutual
  pub equals : Value → Value → Bool
  equals null w = elim w [ null ↦ true | _ ↦ false ]
  equals (bool b) w = equals_number (from_bool b) w
  equals (num m) w = equals_number m w
  equals (str s) w = equals_text s w
  equals (arr vs) w = elim w [ arr ws ↦ equals_items vs ws | _ ↦ false ]
  equals (obj d) w = elim w [
    | obj e ↦ eqb (length (keys d)) (length (keys e)) && equals_fields d e
    | _ ↦ false
  ]

  equals_items : Items → Items → Bool
  equals_items nil ws = elim ws [ nil ↦ true | _ ↦ false ]
  equals_items (cons v vs) ws = elim ws [
    | nil ↦ false
    | cons w rest ↦ equals v w && equals_items vs rest
  ]

  -- every entry of the first is an entry of the second
  equals_fields : Fields → Fields → Bool
  equals_fields end e = true
  equals_fields (field k v rest) e = elim (get k e) [
    | none ↦ false
    | some w ↦ equals v w && equals_fields rest e
  ]

-- `v in items`
unfoldable pub is_among : Value → Items → Bool
is_among v nil = false
is_among v (cons w rest) = equals v w || is_among v rest

-- `d.get(k) == s`, for a text
unfoldable pub has_text : String → String → Fields → Bool
has_text k s d = elim (get k d) [ some v ↦ equals_text s v | none ↦ false ]
