-- ===== src/Contracts/Tools/Calls.antt =====
-- app/contracts/phase0.py: what `resolve`, `names` and `validate_call` of a `ToolRegistry` grant.
use startup_ai_manager.Base.{
  String, Bool, true, false, not, ◌||◌, ◌&&◌, Option, none, some, List, [], ◌∷◌, All, map, keep,
  mem_text, sorted_by, insert_by, ◌==◌, eq_iff, eq_refl, eq_sym, ok, ok-injective, ◌≡◌, ◌↔◌, refl,
  sym, ap, subst, ◌∙◌, Bool-cases, inl, inr, arith, not-false,
}
use startup_ai_manager.Base.Checks.{bind_ok, refuse_ok}
use startup_ai_manager.Json.{Value, Fields, obj, get_value}
use startup_ai_manager.Contracts.{Patterns, roles}
use startup_ai_manager.Contracts.Sets.{All-mem_text}
use startup_ai_manager.Contracts.Manifest.{validate_tool_manifest, texts_at}
use startup_ai_manager.Contracts.Manifest.Zones.{StaysWithin, manifest-StaysWithin}
use startup_ai_manager.Contracts.Arguments.Conform.{Conforms, accepted_arguments}
use startup_ai_manager.Contracts.Tools.{
  Tool, Registry, find_tool, name_of, granted_roles, is_listed, is_role, register, names, authorize,
  resolve, validate_call,
}
use startup_ai_manager.Contracts.Tools.Sound.{
  IsTool, tool_of, IsRegistry, Distinct, find_tool-append, find_tool-append_some, register_ok,
}

-- `resolve` returns the manifest of a name that grants a known role, and no other.
pub resolve_iff :
    (name role : String) (tools : Registry) (d : Fields)
    → (resolve name role tools ≡ ok d) ↔ (
        (mem_text role roles ≡ true)
        × (find_tool name tools ≡ some d)
        × (mem_text role (granted_roles d) ≡ true))
unfolding resolve authorize
resolve_iff name role tools d = (forth, λ (k, f, g). rw (k, f, authorize, g))
  where
    authorized :
        (o : Option Fields)
        → authorize role o ≡ ok d
        → (o ≡ some d) × (mem_text role (granted_roles d) ≡ true)
    authorized none h = absurd (cc h)
    authorized (some e) h = elim (Bool-cases (mem_text role (granted_roles e))) [
      | inl g ↦
          let p = ok-injective (rw (g) at h) in
          (ap some p, subst (λ x. mem_text role (granted_roles x) ≡ true) p g)
      | inr g ↦ absurd (cc (rw (g) at h))
    ]

    forth :
        resolve name role tools ≡ ok d
        → (mem_text role roles ≡ true)
          × (find_tool name tools ≡ some d)
          × (mem_text role (granted_roles d) ≡ true)
    forth h =
        let (k, h1) = refuse_ok (not (mem_text role roles)) _ _ h in
        let (f, g) = authorized (find_tool name tools) h1 in (not-false _ k, f, g)

-- A manifest that has been registered is what `resolve` returns for its name and each role that it
-- grants; every call that resolved before resolves as it did.
pub register-resolve :
    (re : Patterns) (m : Value) (tools : Registry) (d : Fields) (tools' : Registry)
    → register re m tools ≡ ok (d, tools')
    → ((role : String)
        → mem_text role roles ≡ true
        → mem_text role (granted_roles d) ≡ true
        → resolve (name_of d) role tools' ≡ ok d)
      × ((name role : String) (e : Fields)
          → resolve name role tools ≡ ok e
          → resolve name role tools' ≡ ok e)
register-resolve re m tools d tools' h =
    let (_, hf, e) = register_ok re m tools h in
    (
      (λ role k g. (resolve_iff (name_of d) role tools' d).1 (
        k,
        ap (find_tool (name_of d)) e
            ∙ find_tool-append (name_of d) tools (tool_of d) hf
            ∙ rw (eq_refl (name_of d)),
        g,
      )),
      λ name role x r.
          let (k, f, g) = (resolve_iff name role tools x).0 r in
          (resolve_iff name role tools' x).1
            (k, ap (find_tool name) e ∙ find_tool-append_some name tools (tool_of d) f, g),
    )

find_tool-IsTool :
    (re : Patterns) (name : String) (tools : Registry) {d : Fields}
    → All (IsTool re) tools
    → find_tool name tools ≡ some d
    → validate_tool_manifest re (obj d) ≡ ok d
unfolding find_tool
find_tool-IsTool re name [] a h = absurd (cc h)
find_tool-IsTool re name (t ∷ ts) {d} a h = elim (Bool-cases (t.name == name)) [
  | inl e ↦
      subst (λ x. validate_tool_manifest re (obj x) ≡ ok x) (some-injective (rw (e) at h))
        a.0.accepted
  | inr e ↦ find_tool-IsTool re name ts a.1 (rw (e) at h)
]
  where
    some-injective : {a b : Fields} → ◌≡◌ {A = Option Fields} (some a) (some b) → a ≡ b
    some-injective q = cc q

-- A call that `validate_call` accepts is of a registered tool that grants the role, whose zones stay
-- within what the role is allowed, and its arguments conform to the tool's parameters at the top level:
-- each required one is there, none is undeclared, and each has its declared type, enum and pattern. What
-- is nested in an argument is not compared.
pub accepted_call :
    (re : Patterns) (name role : String) (arguments : Value) (tools : Registry)
    → IsRegistry re tools
    → validate_call re name role arguments tools ≡ ok tt
    → (d : Fields) × (find_tool name tools ≡ some d)
      × (mem_text role (granted_roles d) ≡ true)
      × StaysWithin d role
      × ((schema args : Fields) × (get_value "parameters" d ≡ obj schema)
          × (arguments ≡ obj args)
          × Conforms re schema args)
unfolding validate_call
accepted_call re name role arguments tools r h =
    let (d, hd, ha) = bind_ok (resolve name role tools) _ h in
    let (_, f, g) = (resolve_iff name role tools d).0 hd in
    let v = find_tool-IsTool re name tools r.tools_accepted f in
    (
      d,
      f,
      g,
      All-mem_text (StaysWithin d) role (texts_at "roles" d) (manifest-StaysWithin re (obj d) d v).0
          g,
      accepted_arguments re (get_value "parameters" d) arguments ha,
    )

mem_text-insert_by :
    (s t : String) (ts : List String)
    → mem_text s (insert_by (λ n. n) t ts) ≡ (s == t || mem_text s ts)
unfolding insert_by mem_text
mem_text-insert_by s t [] = refl
mem_text-insert_by s t (u ∷ us) = ground (arith, mem_text-insert_by s t us)

mem_text-sorted_by :
    (s : String) (ts : List String) → mem_text s (sorted_by (λ n. n) ts) ≡ mem_text s ts
unfolding sorted_by mem_text
mem_text-sorted_by s [] = refl
mem_text-sorted_by s (t ∷ ts) =
    mem_text-insert_by s t (sorted_by (λ n. n) ts) ∙ ap (λ b. s == t || b) (mem_text-sorted_by s ts)

-- The names that `names` sorts.
abbrev listed_names : String → Registry → List String
listed_names role tools = map (λ t. Tool.name t) (keep (is_listed (some role)) tools)

listed_names-cons :
    (name role : String) (t : Tool) (ts : Registry)
    → mem_text name (listed_names role (t ∷ ts)) ≡ (
        mem_text role (granted_roles t.manifest) && name == t.name
        || mem_text name (listed_names role ts))
unfolding is_listed mem_text
listed_names-cons name role t ts = go (mem_text role (granted_roles t.manifest)) refl
  where
    go :
        (b : Bool)
        → mem_text role (granted_roles t.manifest) ≡ b
        → mem_text name (listed_names role (t ∷ ts))
          ≡ (b && name == t.name || mem_text name (listed_names role ts))
    go true e = rw (e, mem_text)
    go false e = rw (e, mem_text)

unknown_unlisted :
    (name role : String) (ts : Registry)
    → find_tool name ts ≡ none
    → mem_text name (listed_names role ts) ≡ false
unfolding find_tool mem_text
unknown_unlisted name role [] h = refl
unknown_unlisted name role (t ∷ ts) h = elim (Bool-cases (t.name == name)) [
  | inl e ↦ absurd (cc (rw (e) at h))
  | inr e ↦
      listed_names-cons name role t ts
      ∙ ground (arith, eq_sym name t.name, unknown_unlisted name role ts (rw (e) at h), e)
]

listed_iff :
    (name role : String) (tools : Registry)
    → Distinct tools
    → (mem_text name (listed_names role tools) ≡ true)
      ↔ ((d : Fields) × (find_tool name tools ≡ some d) × (mem_text role (granted_roles d) ≡ true))
unfolding find_tool mem_text
listed_iff name role [] u = ((λ h. absurd (cc h)), λ (d, f, g). absurd (cc f))
listed_iff name role (t ∷ ts) u = elim (Bool-cases (t.name == name)) [
  | inl e ↦
      let p = (eq_iff t.name name).0 e in
      let n = unknown_unlisted name role ts (subst (λ x. find_tool x ts ≡ none) p u.0) in
      let q = listed_names-cons name role t ts in
      let s = eq_sym name t.name ∙ e in
      (
        (λ h. (t.manifest, rw (e), ground (arith, q, n, s, h))),
        λ (d, f, g). let m = some-injective (rw (e) at f) in q ∙ rw (m, g, s),
      )
  | inr e ↦
      let q = listed_names-cons name role t ts in
      let s = eq_sym name t.name ∙ e in
      let rest = listed_iff name role ts u.1 in
      (
        (λ h. let (d, f, g) = rest.0 (ground (arith, q, s, h)) in (d, rw (e) f, g)),
        λ (d, f, g). let m = rest.1 (d, (rw (e) at f), g) in ground (arith, q, s, m),
      )
]
  where
    some-injective : {a b : Fields} → ◌≡◌ {A = Option Fields} (some a) (some b) → a ≡ b
    some-injective q = cc q

-- A role's `names` are exactly those that `resolve` grants it.
pub names-resolve :
    (re : Patterns) (role : String) (tools : Registry) (ns : List String)
    → IsRegistry re tools
    → names (some role) tools ≡ ok ns
    → (name : String)
    → (mem_text name ns ≡ true) ↔ ((d : Fields) × (resolve name role tools ≡ ok d))
unfolding names
names-resolve re role tools ns r h name =
    let (k, h1) = refuse_ok (not (is_role (some role))) _ _ h in
    let e = ok-injective h1 in
    let q = ap (mem_text name) (sym e) ∙ mem_text-sorted_by name (listed_names role tools) in
    let (to, from) = listed_iff name role tools r.names_distinct in
    (
      (λ m.
          let (d, f, g) = to (sym q ∙ m) in
          (d, (resolve_iff name role tools d).1 (not-false _ k, f, g))),
      λ (d, x). let (_, f, g) = (resolve_iff name role tools d).0 x in q ∙ from (d, f, g),
    )
