-- ===== src/Contracts/Surface/Search.antt =====
-- app/contracts/phase2.py: what `ToolSearchSurface` shows and runs.
use startup_ai_manager.Base.{
  ℕ, zero, suc, ◌<◌, ◌≤◌, String, true, not, ltb, Option, none, some, List, [], ◌∷◌, All, length,
  mem_text, ok, ok-injective, ◌≡◌, ◌↔◌, refl, sym, subst, arith, not-false, Bool-cases, inl, inr,
}
use startup_ai_manager.Base.Checks.{bind_ok, then_ok, refuse_ok, refuse_passed}
use startup_ai_manager.Base.Int.{pos, negsuc}
use startup_ai_manager.Json.{Value, Fields, get_value}
use startup_ai_manager.Contracts.{Patterns, roles}
use startup_ai_manager.Contracts.Tools.{Registry, names, resolve, validate_call}
use startup_ai_manager.Contracts.Tools.Sound.{IsRegistry}
use startup_ai_manager.Contracts.Tools.Calls.{names-resolve}
use startup_ai_manager.Contracts.Arguments.{validate_tool_arguments}
use startup_ai_manager.Contracts.Surface.{
  Hit, gray_roles, tokens, score_of, collect, insert_hit, rank, first, search_hits, expect_limit,
  expect_intent, ensure_gray, describe, finalize_agent_tool_availability, Executor, execute_tool,
  call_tool,
}

-- A hit is a tool that the role resolves, and shares a token with the query at least.
pub record IsFound (re : Patterns) (query : List String) (role : String) (tools : Registry)
    (h : Hit) : Type 0 where
  pub granted : resolve h.name role tools ≡ ok h.manifest
  pub scored : h.score ≡ score_of re query h.name h.manifest
  pub relevant : 0 < h.score

module _ (re : Patterns) (query : List String) (role : String) (tools : Registry) where
  collect-IsFound :
      (ns : List String) {hits : List Hit}
      → collect re query role ns tools ≡ ok hits
      → All (IsFound re query role tools) hits
  unfolding collect
  collect-IsFound [] h = subst (All (IsFound re query role tools)) (ok-injective h) tt
  collect-IsFound (n ∷ ns) h =
      let (d, hd, h1) = bind_ok (resolve n role tools) _ h in
      let (rest, hr, h2) = bind_ok (collect re query role ns tools) _ h1 in
      let a = collect-IsFound ns hr in
      elim (Bool-cases (ltb 0 (score_of re query n d))) [
        | inl e ↦
            subst (All (IsFound re query role tools)) (ok-injective (rw (e) at h2))
              (record { granted = hd; scored = refl; relevant = ground (arith, e) }, a)
        | inr e ↦ subst (All (IsFound re query role tools)) (ok-injective (rw (e) at h2)) a
      ]

module _ (P : Hit → Type 0) where
  insert_hit-All : (h : Hit) (hs : List Hit) → P h → All P hs → All P (insert_hit h hs)
  unfolding insert_hit
  insert_hit-All h [] p a = (p, tt)
  insert_hit-All h (k ∷ ks) p a = ground (arith, insert_hit-All h ks)

  rank-All : (hs : List Hit) → All P hs → All P (rank hs)
  unfolding rank
  rank-All [] a = tt
  rank-All (h ∷ hs) a = insert_hit-All h (rank hs) a.0 (rank-All hs a.1)

  first-All : (n : ℕ) (hs : List Hit) → All P hs → All P (first n hs)
  unfolding first
  first-All zero hs a = tt
  first-All (suc n) [] a = tt
  first-All (suc n) (h ∷ hs) a = (a.0, first-All n hs a.1)

length-first : {A : Type 0} (n : ℕ) (xs : List A) → length (first n xs) ≤ n
unfolding first
length-first zero xs = omega arith
length-first (suc n) [] = omega arith
length-first (suc n) (x ∷ xs) = omega (arith, length-first n xs)

expect_limit-le : (v : Value) {n : ℕ} → expect_limit v ≡ ok n → n ≤ 50
unfolding expect_limit
expect_limit-le (Value.num (pos m)) h = ground arith
expect_limit-le (Value.num (negsuc m)) h = absurd (cc h)
expect_limit-le Value.null h = absurd (cc h)
expect_limit-le _ h = absurd (cc h)

-- `search` of a gray role returns fifty tools at most, each of which the role resolves, under the
-- text of the intent and with a token in common with it.
pub search_sound :
    (re : Patterns) (intent limit : Value) (role : String) (tools : Registry) (hits : List Hit)
    → search_hits re intent role limit tools ≡ ok hits
    → (mem_text role gray_roles ≡ true)
      × (length hits ≤ 50)
      × ((text : String) × (expect_intent intent ≡ ok text)
          × All (IsFound re (tokens re text) role tools) hits)
unfolding search_hits ensure_gray
search_sound re intent limit role tools hits h0 =
    let (he, h1) = then_ok (ensure_gray role) _ h0 in
    let (text, ht, h2) = bind_ok (expect_intent intent) _ h1 in
    let (n, hn, h3) = bind_ok (expect_limit limit) _ h2 in
    let (ns, hns, h4) = bind_ok (names (some role) tools) _ h3 in
    let (found, hc, h5) = bind_ok (collect re (tokens re text) role ns tools) _ h4 in
    let e = ok-injective h5 in
    let (_, hg) = refuse_ok (not (mem_text role roles)) _ _ he in
    (
      not-false _ (refuse_passed _ _ hg),
      subst (λ x. length x ≤ 50) e
          (omega (arith, length-first n (rank found), expect_limit-le limit hn)),
      (
        text,
        ht,
        subst (All (IsFound re (tokens re text) role tools)) e (
            first-All _ n (rank found)
              (rank-All _ found (collect-IsFound re (tokens re text) role tools ns hc))),
      ),
    )

-- What the host allows a role to execute_tool is what the role can describe: for a known role, a name is
-- in the allowlist exactly where `describe` returns its manifest.
pub allowlist_described :
    (re : Patterns) (role : String) (tools : Registry) (ns : List String)
    → IsRegistry re tools
    → finalize_agent_tool_availability tools role ≡ ok ns
    → (name : String)
    → (mem_text name ns ≡ true) ↔ ((d : Fields) × (describe name role tools ≡ ok d))
unfolding finalize_agent_tool_availability describe ensure_gray mem_text
allowlist_described re role tools ns r h0 name =
    let (hk, h) = refuse_ok (not (mem_text role roles)) _ _ h0 in
    elim (Bool-cases (mem_text role gray_roles)) [
      | inl g ↦
          let (to, from) = names-resolve re role tools ns r (rw (g) at h) name in
          ((λ m. let (d, e) = to m in (d, rw (hk, g) e)), λ (d, e). from (d, rw (hk, g) at e))
      | inr g ↦
          let e = ok-injective (rw (g) at h) in
          (
            (λ m. absurd (cc (subst (λ x. mem_text name x ≡ true) (sym e) m))),
            λ (d, x). absurd (cc (rw (hk, g) at x)),
          )
    ]

gray_known : (role : String) → mem_text role gray_roles ≡ true → mem_text role roles ≡ true
unfolding mem_text
gray_known role g = ground arith

-- A call returns a value exactly where there is an executor, the role is gray, and the registry
-- accepts the call; the value is what the executor returns for these arguments.
pub call_runs :
    (re : Patterns) (executor : Option Executor) (name role : String) (arguments out : Value)
    (tools : Registry)
    → (call_tool re executor name arguments role tools ≡ ok out) ↔ (
        (mem_text role gray_roles ≡ true)
        × (validate_call re name role arguments tools ≡ ok tt)
        × ((run : Executor) × (executor ≡ some run) × (out ≡ run name arguments)))
unfolding call_tool ensure_gray validate_call execute_tool
call_runs re executor name role arguments out tools = (forth, back)
  where
    forth :
        call_tool re executor name arguments role tools ≡ ok out
        → (mem_text role gray_roles ≡ true)
          × (validate_call re name role arguments tools ≡ ok tt)
          × ((run : Executor) × (executor ≡ some run) × (out ≡ run name arguments))
    forth h0 =
        let (he, h1) = then_ok (ensure_gray role) _ h0 in
        let (d, hd, h2) = bind_ok (resolve name role tools) _ h1 in
        let (hv, h3) =
          then_ok (validate_tool_arguments re (get_value "parameters" d) arguments) _ h2 in
        let (_, hg) = refuse_ok (not (mem_text role roles)) _ _ he in
        (not-false _ (refuse_passed _ _ hg), rw (hd) hv, ran executor h3)
      where
        ran :
            (x : Option Executor)
            → execute_tool x name arguments ≡ ok out
            → (run : Executor) × (x ≡ some run) × (out ≡ run name arguments)
        ran none h = absurd (cc h)
        ran (some run) h = (run, refl, sym (ok-injective h))

    back :
        (mem_text role gray_roles ≡ true)
          × (validate_call re name role arguments tools ≡ ok tt)
          × ((run : Executor) × (executor ≡ some run) × (out ≡ run name arguments))
        → call_tool re executor name arguments role tools ≡ ok out
    back (g, v, (run, x, o)) =
        let (d, hd, hv) = bind_ok (resolve name role tools) _ v in
        rw (gray_known role g, g, hd, hv, x, o)
