-- ===== src/Migration/Store/Documents.antt =====
-- A plan that `create` has accepted passes the checks of `get`.
use startup_ai_manager.Base.{
  ◌≡◌, refl, sym, ap, ◌∙◌, String, true, false, ◌&&◌, Option, none, some, arith, ◌==◌, eq_iff,
  is_blank, ok, and-true,
}
use startup_ai_manager.Json.{Value, Fields, obj, str, get, get_value, get_value-some, is_text}
use startup_ai_manager.Migration.Codec.{Codec}
use startup_ai_manager.Migration.Store.{
  Plan, Db, missing, required_fields, validate_plan, new_plan, same_plan, verify_document,
  verify_row, get_plan,
}
use startup_ai_manager.Migration.Store.Rows.{Created, find_plan-id}

-- A required field that is not missing holds a nonempty text.
record HoldsText (k : String) (d : Fields) : Type 0 where
  held : String
  at_key : get k d ≡ some (str held)
  not_blank : is_blank held ≡ false

is_text-HoldsText : (k : String) (d : Fields) → is_text (get_value k d) ≡ true → HoldsText k d
unfolding is_text get_value
is_text-HoldsText k d h = go (get k d) refl h
  where
    go :
        (o : Option Value)
        → get k d ≡ o
        → is_text (elim o [ none ↦ Value.null | some v ↦ v ]) ≡ true
        → HoldsText k d
    go (some (str s)) e t = record { held = s; at_key = e; not_blank = ground arith }
    go none e t = absurd (cc t)
    go (some v) e t = absurd (cc t)

module _ (codec : Codec) where
  open codec use {Text, text_eq, text_eq_iff, dumps, loads, digest, loads-dumps}

  -- What `validate_plan` has checked.
  record Accepted (plan : Value) (text : Text) : Type 0 where
    fields : Fields
    is_dict : plan ≡ obj fields
    complete : missing required_fields fields ≡ none
    canonical : dumps (obj fields) ≡ some text

  validate_plan-ok :
      (plan : Value) (text : Text) → validate_plan codec plan ≡ ok text → Accepted plan text
  unfolding validate_plan
  validate_plan-ok (obj d) text h = record {
    fields = d;
    is_dict = refl;
    complete = ground arith;
    canonical = ground arith;
  }
  validate_plan-ok _ text h = absurd (cc h)

  missing-none :
      (d : Fields)
      → missing required_fields d ≡ none
      → (is_text (get_value "plan_id" d) ≡ true) × (is_text (get_value "company_id" d) ≡ true)
  unfolding missing
  missing-none d h = ground arith

  pub same_plan-parts :
      (row p : Plan Text)
      → same_plan codec row p ≡ true
      → (row.company_id ≡ p.company_id)
        × (row.plan_sha256 ≡ p.plan_sha256)
        × (row.plan_json ≡ p.plan_json)
  same_plan-parts row p h =
      let c =
        and-true (row.company_id == p.company_id && row.plan_sha256 == p.plan_sha256)
          (text_eq row.plan_json p.plan_json) h in
      let d = and-true (row.company_id == p.company_id) (row.plan_sha256 == p.plan_sha256) c.0 in
      (
        (eq_iff row.company_id p.company_id).0 d.0,
        (eq_iff row.plan_sha256 p.plan_sha256).0 d.1,
        (text_eq_iff row.plan_json p.plan_json).0 c.1,
      )

  -- The document of a stored row names the row's plan and company.
  verify_accepted :
      (d : Fields) (text : Text) (row : Plan Text) (p : HoldsText "plan_id" d)
      (c : HoldsText "company_id" d)
      → dumps (obj d) ≡ some text
      → row.plan_id ≡ p.held
      → row.company_id ≡ c.held
      → row.plan_sha256 ≡ digest text
      → row.plan_json ≡ text
      → verify_row codec row ≡ ok row
  unfolding verify_row verify_document
  verify_accepted d text row p c canonical id company sha json =
      let (e, loaded, kept) = loads-dumps d text canonical in
      rw (
        (eq_iff (digest row.plan_json) row.plan_sha256).1 (ap digest json ∙ sym sha),
        ap loads json ∙ loaded,
        get_value-some "plan_id" e (str p.held) (kept "plan_id" p.held p.at_key),
        get_value-some "company_id" e (str c.held) (kept "company_id" c.held c.at_key),
        (eq_iff p.held row.plan_id).1 (sym id),
        (eq_iff c.held row.company_id).1 (sym company),
      )

  -- `get` returns the row that stands for a plan that `create` has accepted.
  pub Created-get_plan :
      (plan : Value) (p : Plan Text) (s : Db Text) (c : Created codec plan p s)
      → get_plan codec p.plan_id s ≡ ok (some c.row)
  unfolding get_plan
  Created-get_plan plan p s c =
      let a = validate_plan-ok plan c.text c.valid in
      let (t, u) = missing-none a.fields a.complete in
      let i = is_text-HoldsText "plan_id" a.fields t in
      let k = is_text-HoldsText "company_id" a.fields u in
      let made : p ≡ new_plan codec (obj a.fields) c.text =
        c.made ∙ ap (λ q. new_plan codec q c.text) a.is_dict in
      let id : p.plan_id ≡ i.held = ap (λ q. q.plan_id) made ∙ rw (get_value-some _ _ _ i.at_key) in
      let company : p.company_id ≡ k.held =
        ap (λ q. q.company_id) made ∙ rw (get_value-some _ _ _ k.at_key) in
      let (same_company, same_sha, same_json) = same_plan-parts c.row p c.same in
      let verified =
        verify_accepted a.fields c.text c.row i k a.canonical
          (find_plan-id p.plan_id s.plans c.row c.found ∙ id) (same_company ∙ company)
          (same_sha ∙ ap (λ q. q.plan_sha256) made) (same_json ∙ ap (λ q. q.plan_json) made) in
      rw (c.found, ap is_blank id ∙ i.not_blank, verified)
