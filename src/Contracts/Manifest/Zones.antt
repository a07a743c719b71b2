-- ===== src/Contracts/Manifest/Zones.antt =====
-- app/contracts/phase0.py: the zones that a manifest may name.
use startup_ai_manager.Base.{
  String, Bool, true, false, not, ◌&&◌, ◌||◌, List, [], ◌∷◌, mem_text, All, All-weaken, ◌≡◌, ◌≢◌,
  refl, sym, subst, ap, ◌∙◌, ok, ok-injective, Bool-cases, inl, inr, and-true, arith, not-false,
  false≢true,
}
use startup_ai_manager.Base.Checks.{bind_ok, then_ok, refuse_ok, refuse_passed, each_ok}
use startup_ai_manager.Json.{Value, Fields, Items, nil, cons, null, str, arr, obj, get_value}
use startup_ai_manager.Contracts.{Patterns, roles, zones, read_allowed, write_allowed}
use startup_ai_manager.Contracts.Expect.{
  expect_mapping, expect_string, expect_unique_strings, item_texts, is_within, is_nil, all_strings,
  all_nonempty, repeats,
}
use startup_ai_manager.Contracts.Sets.{mem_text-is_within}
use startup_ai_manager.Contracts.Manifest.{
  texts_at, check_identity, check_permissions, check_role, validate_tool_manifest,
}

-- The zones stay within what `ROLE_ZONE_ALLOWLIST` says of the role.
pub record StaysWithin (d : Fields) (role : String) : Type 0 where
  pub reads : is_within (texts_at "read_zones" d) (read_allowed role) ≡ true
  pub writes : is_within (texts_at "write_zones" d) (write_allowed role) ≡ true

some_texts :
    (items : Items) → is_nil items ≡ false → all_strings items ≡ true → item_texts items ≢ []
unfolding item_texts all_strings
some_texts nil h a = absurd (cc h)
some_texts (cons (str s) rest) h a = λ e. cc e
some_texts (cons null rest) h a = absurd (cc a)
some_texts (cons _ rest) h a = absurd (cc a)

-- What `_expect_unique_strings` returns are the texts of an array, some where it must not be empty.
unique_strings_ok :
    (v : Value) (allowed : List String) (b : Bool) {ts : List String}
    → expect_unique_strings v allowed b ≡ ok ts
    → (items : Items) × (v ≡ arr items) × (ts ≡ item_texts items) × (b ≡ true → ts ≢ [])
unfolding expect_unique_strings
unique_strings_ok (arr items) allowed b {ts} h0 =
    let (hn, h1) = refuse_ok (b && is_nil items) _ _ h0 in
    let (ha, h2) = refuse_ok (not (all_strings items && all_nonempty (item_texts items))) _ _ h1 in
    let (_, h3) = refuse_ok (repeats (item_texts items)) _ _ h2 in
    let (_, h4) = refuse_ok (not (is_within (item_texts items) allowed)) _ _ h3 in
    let e = sym (ok-injective h4) in
    (
      items,
      refl,
      e,
      λ p q. some_texts items (rw (p) at hn) (and-true _ _ (not-false _ ha)).0 (sym e ∙ q),
    )
unique_strings_ok null allowed b h = absurd (cc h)
unique_strings_ok _ allowed b h = absurd (cc h)

texts_at_ok :
    (k : String) (d : Fields) (allowed : List String) (b : Bool) {ts : List String}
    → expect_unique_strings (get_value k d) allowed b ≡ ok ts
    → (ts ≡ texts_at k d) × (b ≡ true → ts ≢ [])
unfolding texts_at
texts_at_ok k d allowed b h =
    let (items, hv, hts, hn) = unique_strings_ok (get_value k d) allowed b h in
    (rw (hv, texts_at) hts, hn)

check_role_ok :
    (d : Fields) (role : String)
    → check_role (texts_at "read_zones" d) (texts_at "write_zones" d) role ≡ ok tt
    → StaysWithin d role
unfolding check_role
check_role_ok d role h =
    let e =
      refuse_passed
        (not (is_within (texts_at "read_zones" d) (read_allowed role))
          || not (is_within (texts_at "write_zones" d) (write_allowed role)))
        _ h in
    record { reads = ground (arith, e); writes = ground (arith, e) }

permissions_ok :
    (d : Fields)
    → check_permissions d ≡ ok tt
    → All (StaysWithin d) (texts_at "roles" d) × (texts_at "roles" d ≢ [])
unfolding check_permissions
permissions_ok d h0 =
    let (rs, hr, h1) = bind_ok (expect_unique_strings (get_value "roles" d) roles true) _ h0 in
    let (zs, hz, h2) =
      bind_ok (expect_unique_strings (get_value "read_zones" d) zones false) _ h1 in
    let (ws, hw, h3) =
      bind_ok (expect_unique_strings (get_value "write_zones" d) zones false) _ h2 in
    let (_, _, h4) = bind_ok (expect_string (get_value "provenance" d)) _ h3 in
    let (er, ne) = texts_at_ok "roles" d roles true hr in
    let (ez, _) = texts_at_ok "read_zones" d zones false hz in
    let (ew, _) = texts_at_ok "write_zones" d zones false hw in
    let h5 = each_ok _ rs h4 in
    (
      subst (All (StaysWithin d)) er
          (All-weaken _ (StaysWithin d) (λ r p. check_role_ok d r (stays r ez ew p)) rs h5),
      λ e. ne refl (er ∙ e),
    )
  where
    stays :
        {zs ws : List String} (role : String)
        → zs ≡ texts_at "read_zones" d
        → ws ≡ texts_at "write_zones" d
        → check_role zs ws role ≡ ok tt
        → check_role (texts_at "read_zones" d) (texts_at "write_zones" d) role ≡ ok tt
    stays role ez ew p = rw (sym ez, sym ew) p

pub validate_tool_manifest_ok :
    (re : Patterns) (m : Value) {d : Fields}
    → validate_tool_manifest re m ≡ ok d
    → (m ≡ obj d) × (check_identity re d ≡ ok tt) × (check_permissions d ≡ ok tt)
unfolding validate_tool_manifest expect_mapping
validate_tool_manifest_ok re (obj d) h0 =
    let (hi, h1) = then_ok (check_identity re d) _ h0 in
    let (hp, h2) = then_ok (check_permissions d) _ h1 in
    let e = ok-injective h2 in
    (
      ap obj e,
      subst (λ x. check_identity re x ≡ ok tt) e hi,
      subst (λ x. check_permissions x ≡ ok tt) e hp,
    )
validate_tool_manifest_ok re null h = absurd (cc h)
validate_tool_manifest_ok re _ h = absurd (cc h)

-- The zones of a manifest that is accepted stay within what the allowlist says of every role that
-- the manifest grants, and it grants one at least.
pub manifest-StaysWithin :
    (re : Patterns) (m : Value) (d : Fields)
    → validate_tool_manifest re m ≡ ok d
    → All (StaysWithin d) (texts_at "roles" d) × (texts_at "roles" d ≢ [])
manifest-StaysWithin re m d h = permissions_ok d (validate_tool_manifest_ok re m h).2

ledger_not_allowed : (role : String) → mem_text "ledger_r1" (write_allowed role) ≡ false
unfolding write_allowed mem_text
ledger_not_allowed role = ground arith

-- No manifest that is accepted may write to the ledger, whatever its roles.
pub ledger_not_written :
    (re : Patterns) (m : Value) (d : Fields)
    → validate_tool_manifest re m ≡ ok d
    → mem_text "ledger_r1" (texts_at "write_zones" d) ≡ false
ledger_not_written re m d h =
    let (all, some_role) = manifest-StaysWithin re m d h in one (texts_at "roles" d) all some_role
  where
    one :
        (rs : List String)
        → All (StaysWithin d) rs
        → rs ≢ []
        → mem_text "ledger_r1" (texts_at "write_zones" d) ≡ false
    one [] a n = absurd (n refl)
    one (r ∷ rs) a n = elim (Bool-cases (mem_text "ledger_r1" (texts_at "write_zones" d))) [
      | inr e ↦ e
      | inl e ↦
          let p = mem_text-is_within "ledger_r1" _ (write_allowed r) a.0.writes e in
          absurd (false≢true (sym (ledger_not_allowed r) ∙ p))
    ]
