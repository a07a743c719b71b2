-- ===== src/Migration/Approval.antt =====
-- app/facts_tree/migration_plans.py: the arguments of `decide` and of `transition`, and their checks.
use startup_ai_manager.Base.{
  String, Bool, true, false, not, ◌&&◌, ◌||◌, Option, none, some, is_blank, eqb, leb, Result, ok,
  err,
}
use Prim.Native.String.{len}
use Prim.Native.Char.{code}
use startup_ai_manager.Json.{Value, str, obj, Fields, end, field}
use startup_ai_manager.Migration.State.{State}
use startup_ai_manager.Migration.Store.{Error, no_verifier}

-- The evidence that `decide` hands to the verifier.
pub record Evidence : Type 0 where
  pub decision : State
  pub actor : String
  pub approval_ref : String
  pub approval_doc_sha256 : String
  pub plan_id : String
  pub company_id : String
  pub plan_sha256 : String
  pub target : Value

abbrev pub given : Option String → Bool
given none = false
given (some s) = not (is_blank s)

-- `all(c in "0123456789abcdef" for c in s)`
abbrev pub is_hex : String → Bool
is_hex String.[] = true
is_hex (String.◌∷◌ c s) =
    ((leb b'0' (code c) && leb (code c) b'9') || (leb b'a' (code c) && leb (code c) b'f'))
    && is_hex s

abbrev pub is_sha256 : String → Bool
is_sha256 s = eqb (len s) 64 && is_hex s

-- `detail or {}`
abbrev pub detail_or_empty : Option Fields → Value
detail_or_empty none = obj end
detail_or_empty (some fs) = obj fs

-- `{"approval_ref": …, "approval_doc_sha256": …}`, with the detail where there is one.
unfoldable pub decision_payload : String → String → Option Fields → Value
decision_payload ref sha (some (field k v fs)) = obj (
    field "approval_ref" (str ref)
      (field "approval_doc_sha256" (str sha) (field "detail" (obj (field k v fs)) end)))
decision_payload ref sha _ =
    obj (field "approval_ref" (str ref) (field "approval_doc_sha256" (str sha) end))

-- `if not callable(verifier): raise`
unfoldable pub require_verifier :
    Option (Value → Evidence → Bool) → Result Error (Value → Evidence → Bool)
require_verifier none = err no_verifier
require_verifier (some v) = ok v

-- `decision == "rejected" and not …`
abbrev pub needs_reason : State → Option String → Bool
needs_reason State.rejected reason = not (given reason)
needs_reason _ reason = false
