-- ===== src/Migration/Codec.antt =====
-- What the plan store takes from `json` and `hashlib`: `_canonical_json`, `json.loads` and
-- `_digest`. The canonical text of a document is opaque.
use startup_ai_manager.Base.{String, Bool, true, Option, some, ◌≡◌, ◌↔◌}
use startup_ai_manager.Json.{Value, Fields, obj, str, get}

pub record Codec : Type 1 where
  pub Text : Type 0
  pub text_eq : Text → Text → Bool
  pub text_eq_iff : (s t : Text) → (text_eq s t ≡ true) ↔ (s ≡ t)
  -- `none`: the document is not JSON serializable
  pub dumps : Value → Option Text
  -- `none`: the text is not valid JSON
  pub loads : Text → Option Value
  -- the SHA-256 of the text, in hexadecimal
  pub digest : Text → String
  -- A dict comes back as a dict with the same texts at the same keys.
  pub loads-dumps :
      (d : Fields) (t : Text)
      → dumps (obj d) ≡ some t
      → (e : Fields) × (loads t ≡ some (obj e))
        × ((k s : String) → get k d ≡ some (str s) → get k e ≡ some (str s))
