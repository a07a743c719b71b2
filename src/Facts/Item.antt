-- ===== src/Facts/Item.antt =====
-- app/memory/company_facts/l2_consolidation.py: the fields that `_unresolved_todo` reads from an item,
-- and the values that SQLite makes of them in the columns of `todos`.
use startup_ai_manager.Base.{Bool, ltb, String, none, some, if◌then◌else◌, ltb, Result, ok, err}
use startup_ai_manager.Base.Checks.{◌>>=◌}
use startup_ai_manager.Base.Int.{ℤ}
use startup_ai_manager.Json.{Value, null, bool, num, str, arr, obj, Fields, get, get_value}
use startup_ai_manager.Facts.Todos.{
  Error, Service, or_value, key_error, attribute_error, not_bindable, null_column,
}

-- What the columns of a new row hold.
pub record Cells : Type 0 where
  pub source : Fields
  pub entity : String
  pub reason : String
  pub blocking : String
  pub file : String
  pub page : Value
  pub span : Value

-- `item[key]`
unfoldable pub read_key : String → Fields → Result Error Value
read_key k fs = elim (get k fs) [ none ↦ err key_error | some v ↦ ok v ]

-- `item["source"]`, of which the code calls `get`.
unfoldable pub read_source : Fields → Result Error Fields
read_source item =
    read_key "source" item >>= λ v. elim v [ obj source ↦ ok source | _ ↦ err attribute_error ]

-- `NOT NULL`, on a text column
abbrev pub not_null : Value → Result Error String
not_null (str s) = ok s
not_null _ = err null_column

-- SQLite's integers have 64 bits; a larger one raises where it is bound.
abbrev pub fits : ℤ → Bool
fits (ℤ.pos n) = ltb n 9223372036854775808
fits (ℤ.negsuc n) = ltb n 9223372036854775808

module _ (service : Service) where
  -- A parameter for a TEXT column. A list or a dict cannot be bound.
  unfoldable pub text_cell : Value → Result Error Value
  text_cell null = ok null
  text_cell (bool b) = ok (str (service.text_of_number (ℤ.pos (if b then 1 else 0))))
  text_cell (num n) = if fits n then ok (str (service.text_of_number n)) else err not_bindable
  text_cell (str s) = ok (str s)
  text_cell (arr _) = err not_bindable
  text_cell (obj _) = err not_bindable

  -- A parameter for an INTEGER column.
  unfoldable pub number_cell : Value → Result Error Value
  number_cell null = ok null
  number_cell (bool b) = ok (num (ℤ.pos (if b then 1 else 0)))
  number_cell (num n) = if fits n then ok (num n) else err not_bindable
  number_cell (str s) = ok (service.number_of_text s)
  number_cell (arr _) = err not_bindable
  number_cell (obj _) = err not_bindable

  -- The lookups, the binding of the parameters in order, and the constraints of the row.
  unfoldable pub read_item : Fields → Result Error Cells
  read_item item = do
    source ← read_source item
    reason ← read_key "reason" item
    blocking ← read_key "blocking" item
    file ← read_key "file_hash" source
    entity_cell ← text_cell (or_value (get_value "entity" source) (str ""))
    reason_cell ← text_cell reason
    blocking_cell ← text_cell blocking
    file_cell ← text_cell file
    page_cell ← number_cell (get_value "page" source)
    span_cell ← text_cell (get_value "span" source)
    entity_text ← not_null entity_cell
    reason_text ← not_null reason_cell
    blocking_text ← not_null blocking_cell
    file_text ← not_null file_cell
    ok (record {
      source = source;
      entity = entity_text;
      reason = reason_text;
      blocking = blocking_text;
      file = file_text;
      page = page_cell;
      span = span_cell;
    })
