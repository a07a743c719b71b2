-- ===== src/Contracts/Tools/Sound.antt =====
-- app/contracts/phase0.py: what a `ToolRegistry` holds after any calls of `register`.
use startup_ai_manager.Base.{
  String, false, Option, none, some, List, [], ◌∷◌, ◌++◌, All, All-append, ◌==◌, eq_sym,
  if◌then◌else◌, ok, err, Result-cases, ok-injective, ◌≡◌, refl, sym, ap, subst, ◌∙◌, Bool-cases,
  inl, inr,
}
use startup_ai_manager.Base.Checks.{bind_ok, refuse_ok}
use startup_ai_manager.Json.{Value, Fields, obj}
use startup_ai_manager.Contracts.{Patterns}
use startup_ai_manager.Contracts.Manifest.{validate_tool_manifest}
use startup_ai_manager.Contracts.Manifest.Zones.{validate_tool_manifest_ok}
use startup_ai_manager.Contracts.Tools.{Tool, Registry, find_tool, name_of, is_known_tool, register}

-- A manifest that would be accepted, under the name that it gives.
pub record IsTool (re : Patterns) (t : Tool) : Type 0 where
  pub accepted : validate_tool_manifest re (obj t.manifest) ≡ ok t.manifest
  pub named : name_of t.manifest ≡ t.name

abbrev pub Distinct : Registry → Type 0
Distinct [] = Unit
Distinct (t ∷ ts) = (find_tool t.name ts ≡ none) × Distinct ts

pub record IsRegistry (re : Patterns) (tools : Registry) : Type 0 where
  pub tools_accepted : All (IsTool re) tools
  pub names_distinct : Distinct tools

pub find_tool-append :
    (name : String) (ts : Registry) (t : Tool)
    → find_tool name ts ≡ none
    → find_tool name (ts ++ t ∷ []) ≡ (if t.name == name then some t.manifest else none)
unfolding find_tool
find_tool-append name [] t h = refl
find_tool-append name (u ∷ us) t h = elim (Bool-cases (u.name == name)) [
  | inl e ↦ absurd (cc (rw (e) at h))
  | inr e ↦ rw (e, find_tool-append name us t (rw (e) at h))
]

pub find_tool-append_some :
    (name : String) (ts : Registry) (t : Tool) {d : Fields}
    → find_tool name ts ≡ some d
    → find_tool name (ts ++ t ∷ []) ≡ some d
unfolding find_tool
find_tool-append_some name [] t h = absurd (cc h)
find_tool-append_some name (u ∷ us) t h = elim (Bool-cases (u.name == name)) [
  | inl e ↦ rw (e) (rw (e) at h)
  | inr e ↦ rw (e, find_tool-append_some name us t (rw (e) at h))
]

append-Distinct :
    (ts : Registry) (t : Tool) → find_tool t.name ts ≡ none → Distinct ts → Distinct (ts ++ t ∷ [])
unfolding find_tool
append-Distinct [] t h d = (refl, tt)
append-Distinct (u ∷ us) t h d = elim (Bool-cases (u.name == t.name)) [
  | inl e ↦ absurd (cc (rw (e) at h))
  | inr e ↦ (
    find_tool-append u.name us t d.0 ∙ rw (eq_sym t.name u.name, e),
    append-Distinct us t (rw (e) at h) d.1,
  )
]

abbrev pub tool_of : Fields → Tool
tool_of d = record { name = name_of d; manifest = d }

-- A registration that succeeds adds the manifest at the end, under a name that was free.
pub register_ok :
    (re : Patterns) (m : Value) (tools : Registry) {d : Fields} {tools' : Registry}
    → register re m tools ≡ ok (d, tools')
    → (validate_tool_manifest re m ≡ ok d)
      × (find_tool (name_of d) tools ≡ none)
      × (tools' ≡ tools ++ tool_of d ∷ [])
unfolding register
register_ok re m tools {d} {tools'} h0 =
    let (e, he, h1) = bind_ok (validate_tool_manifest re m) _ h0 in
    let (hf, h2) = refuse_ok (is_known_tool (find_tool (name_of e) tools)) _ _ h1 in
    let q = ok-injective h2 in
    (
      he ∙ ap ok (ap (λ p. p.0) q),
      subst (λ x. find_tool (name_of x) tools ≡ none) (ap (λ p. p.0) q) (unknown _ hf),
      sym (ap (λ p. p.1) q) ∙ ap (λ x. tools ++ tool_of x ∷ []) (ap (λ p. p.0) q),
    )
  where
    unknown : (o : Option Fields) → is_known_tool o ≡ false → o ≡ none
    unknown none h = refl
    unknown (some d) h = absurd (cc h)

register-IsRegistry :
    (re : Patterns) (m : Value) (tools : Registry) {d : Fields} {tools' : Registry}
    → register re m tools ≡ ok (d, tools')
    → IsRegistry re tools
    → IsRegistry re tools'
register-IsRegistry re m tools {d} h r =
    let (hv, hf, e) = register_ok re m tools h in
    let p = (validate_tool_manifest_ok re m hv).0 in
    subst (IsRegistry re) (sym e) (record {
      tools_accepted =
          All-append (IsTool re) tools (tool_of d ∷ []) r.tools_accepted
            (record { accepted = sym (ap (validate_tool_manifest re) p) ∙ hv; named = refl }, tt);
      names_distinct = append-Distinct tools (tool_of d) hf r.names_distinct;
    })

-- A caller's registrations, one after the other; one that raises changes nothing.
unfoldable pub register_all : Patterns → List Value → Registry → Registry
register_all re [] tools = tools
register_all re (m ∷ ms) tools = elim (register re m tools) [
  | ok (d, tools') ↦ register_all re ms tools'
  | err e ↦ register_all re ms tools
]

register_all-IsRegistry :
    (re : Patterns) (ms : List Value) (tools : Registry)
    → IsRegistry re tools
    → IsRegistry re (register_all re ms tools)
unfolding register_all
register_all-IsRegistry re [] tools r = r
register_all-IsRegistry re (m ∷ ms) tools r = elim (Result-cases (register re m tools)) [
  | inl ((d, tools'), e) ↦
      rw (e, register_all)
        (register_all-IsRegistry re ms tools' (register-IsRegistry re m tools e r))
  | inr (x, e) ↦ rw (e, register_all) (register_all-IsRegistry re ms tools r)
]

-- After any registrations the registry holds accepted manifests alone, each under the name that it
-- gives, and no name twice.
pub registered-IsRegistry :
    (re : Patterns) (ms : List Value) → IsRegistry re (register_all re ms [])
registered-IsRegistry re ms =
    register_all-IsRegistry re ms [] (record { tools_accepted = tt; names_distinct = tt })
