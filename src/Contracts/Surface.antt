-- ===== src/Contracts/Surface.antt =====
-- app/contracts/phase2.py: the tools that one role may search, describe and call.
pub mod Search
use Prim.Native.Char.{code}
use Prim.Native.String.{◌++◌ as concat}
use startup_ai_manager.Base.{
  ℕ, zero, suc, String, Bool, true, false, not, ◌&&◌, ◌||◌, eqb, leb, ltb, Option, none, some, List,
  [], ◌∷◌, map, keep, length, mem_text, text_le, ◌==◌, if◌then◌else◌, is_blank, Result, ok, err,
}
use startup_ai_manager.Base.Checks.{◌>>=◌, ◌>>◌, refuse}
use startup_ai_manager.Base.Int.{pos}
use startup_ai_manager.Json.{Value, Fields, Items, nil, cons, str, arr, obj, num, get, get_value}
use startup_ai_manager.Contracts.{Error, refused, Rule, Patterns, roles}
use startup_ai_manager.Contracts.Arguments.{validate_tool_arguments}
use startup_ai_manager.Contracts.Tools.{Registry, register, names, resolve}

abbrev pub gray_role : String
gray_role = "file_processor"

abbrev pub gray_roles : List String
gray_roles = gray_role ∷ []

-- `[a-z0-9]`
abbrev is_token : ℕ → Bool
is_token c = (leb 97 c && leb c 122) || (leb 48 c && leb c 57)

abbrev add_word : String → List String → List String
add_word w ws = if w == "" then ws else w ∷ ws

-- The run of token characters that a text begins with, and the runs after it.
unfoldable pub runs : String → String × List String
runs String.[] = ("", [])
runs (String.◌∷◌ c s) =
    let (w, ws) = runs s in if is_token (code c) then (String.◌∷◌ c w, ws) else ("", add_word w ws)

unfoldable pub distinct : List String → List String
distinct [] = []
distinct (t ∷ ts) = let rest = distinct ts in if mem_text t rest then rest else t ∷ rest

-- `_tokens(text)`, each token once
unfoldable pub tokens : Patterns → String → List String
tokens re text = let (w, ws) = runs (re.lower text) in distinct (add_word w ws)

-- `payload["tools"]`: each entry is registered, or the first error is raised.
unfoldable pub register_items : Patterns → Items → Registry → Result Error Registry
register_items re nil tools = ok tools
register_items re (cons (obj d) rest) tools =
    register re (obj d) tools >>= λ (_, tools'). register_items re rest tools'
register_items re (cons _ rest) tools = err (refused Rule.not_an_object)

-- `load_phase1_registry`, of the JSON that was read; `none` where the file could not be.
unfoldable pub load_phase1_registry : Patterns → Option Value → Result Error Registry
load_phase1_registry re (some (obj payload)) = elim (get "tools" payload) [
  | some (arr items) ↦ register_items re items []
  | _ ↦ err (refused Rule.no_tools_array)
]
load_phase1_registry re none = err (refused Rule.catalog_unreadable)
load_phase1_registry re (some _) = err (refused Rule.no_tools_array)

unfoldable pub finalize_agent_tool_availability : Registry → String → Result Error (List String)
finalize_agent_tool_availability tools role = do
  refuse (not (mem_text role roles)) (refused Rule.unknown_role)
  if mem_text role gray_roles then names (some role) tools else ok []

unfoldable pub ensure_gray : String → Result Error (Unit {0})
ensure_gray role = do
  refuse (not (mem_text role roles)) (refused Rule.unknown_role)
  refuse (not (mem_text role gray_roles)) (refused Rule.not_gray)

-- `1 <= limit <= 50`, for an integer
unfoldable pub expect_limit : Value → Result Error ℕ
expect_limit (num (pos n)) =
    if leb 1 n && leb n 50 then ok n else err (refused Rule.limit_out_of_range)
expect_limit _ = err (refused Rule.limit_out_of_range)

unfoldable pub expect_intent : Value → Result Error String
expect_intent (str s) = if is_blank s then err (refused Rule.intent_empty) else ok s
expect_intent _ = err (refused Rule.intent_empty)

pub record Hit : Type 0 where
  pub name : String
  pub score : ℕ
  pub manifest : Fields

-- `manifest["purpose"]`, of a manifest that has been validated
abbrev pub purpose_of : Fields → String
purpose_of d = elim (get_value "purpose" d) [ str s ↦ s | _ ↦ "" ]

-- `len(query & haystack)`
unfoldable pub score_of : Patterns → List String → String → Fields → ℕ
score_of re query name d =
    let haystack = tokens re (concat name (concat " " (purpose_of d))) in
    length (keep (λ t. mem_text t haystack) query)

unfoldable pub collect :
    Patterns → List String → String → List String → Registry → Result Error (List Hit)
collect re query role [] tools = ok []
collect re query role (name ∷ ns) tools = do
  d ← resolve name role tools
  rest ← collect re query role ns tools
  let score = score_of re query name d
  ok (if ltb 0 score then record { name = name; score = score; manifest = d } ∷ rest else rest)

-- `key=lambda pair: (-pair[0], pair[1]["name"])`
abbrev pub hit_le : Hit → Hit → Bool
hit_le a b = ltb b.score a.score || (eqb a.score b.score && text_le a.name b.name)

unfoldable pub insert_hit : Hit → List Hit → List Hit
insert_hit h [] = h ∷ []
insert_hit h (k ∷ ks) = if hit_le h k then h ∷ k ∷ ks else k ∷ insert_hit h ks

unfoldable pub rank : List Hit → List Hit
rank [] = []
rank (h ∷ hs) = insert_hit h (rank hs)

-- `results[:limit]`
unfoldable pub first : {A : Type 0} → ℕ → List A → List A
first zero xs = []
first (suc n) [] = []
first (suc n) (x ∷ xs) = x ∷ first n xs

unfoldable pub search_hits : Patterns → Value → String → Value → Registry → Result Error (List Hit)
search_hits re intent role limit tools = do
  ensure_gray role
  text ← expect_intent intent
  n ← expect_limit limit
  ns ← names (some role) tools
  hits ← collect re (tokens re text) role ns tools
  ok (first n (rank hits))

unfoldable pub search_tools :
    Patterns → Value → String → Value → Registry → Result Error (List Fields)
search_tools re intent role limit tools =
    search_hits re intent role limit tools >>= λ hits. ok (map (λ h. Hit.manifest h) hits)

unfoldable pub describe : String → String → Registry → Result Error Fields
describe name role tools = ensure_gray role >> resolve name role tools

-- The callback of the runtime.
abbrev pub Executor : Type 0
Executor = String → Value → Value

unfoldable pub execute_tool : Option Executor → String → Value → Result Error Value
execute_tool none name arguments = err (refused Rule.no_executor)
execute_tool (some run) name arguments = ok (run name arguments)

unfoldable pub call_tool :
    Patterns → Option Executor → String → Value → String → Registry → Result Error Value
call_tool re executor name arguments role tools = do
  ensure_gray role
  d ← resolve name role tools
  validate_tool_arguments re (get_value "parameters" d) arguments
  execute_tool executor name arguments
