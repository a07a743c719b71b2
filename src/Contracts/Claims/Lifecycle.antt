-- ===== src/Contracts/Claims/Lifecycle.antt =====
-- app/contracts/phase3.py: what becomes of a claim under any calls.
use startup_ai_manager.Base.{
  String, true, false, not, ◌&&◌, List, [], ◌∷◌, mem_text, ◌==◌, Result, ok, err, Result-cases,
  ok-injective, ◌≡◌, inl, inr, refl, sym, ap, subst, ◌∙◌, not-false, Bool-cases, eq_iff,
}
use startup_ai_manager.Base.Checks.{bind_ok, then_ok, refuse_ok, refuse_passed}
use startup_ai_manager.Json.{Value, Fields, Items, nil, str, arr, get, get_value, put, is_text}
use startup_ai_manager.Json.Entries.{get-put_other, get_value-put, get_value-put_other}
use startup_ai_manager.Json.Equals.{has_text}
use startup_ai_manager.Contracts.{Error, refused, Rule}
use startup_ai_manager.Contracts.Claims.{
  Statement, no_weight, full_weight, new_user_claim, expect_unsettled, is_settled, is_evidence,
  mark_claim_unverified, verify_claim,
}

-- A call on a claim.
pub data Call : Type 0 where
  mark : (now : String) → Call
  verify : (evidence : Items) (now : String) → Call

unfoldable pub apply_call : Call → Fields → Result Error Fields
apply_call (mark now) c = mark_claim_unverified c now
apply_call (verify evidence now) c = verify_claim c evidence now

-- Calls one after the other; one that raises leaves the claim as it is.
unfoldable pub run_calls : List Call → Fields → Fields
run_calls [] c = c
run_calls (call ∷ calls) c = elim (apply_call call c) [
  | ok c' ↦ run_calls calls c'
  | err e ↦ run_calls calls c
]

-- What a claim says of itself: without evidence it has no weight, and it has full weight with it.
pub data Standing (c : Fields) : Type 0 where
  unproved :
      (status : String)
      → mem_text status ("claimed_by_user" ∷ "unverified" ∷ []) ≡ true
      → get_value "status" c ≡ str status
      → get_value "weight" c ≡ str no_weight
      → get_value "evidence_sources" c ≡ arr nil
      → Standing c
  proved :
      (evidence : Items)
      → is_evidence evidence ≡ true
      → get_value "status" c ≡ str "verified"
      → get_value "weight" c ≡ str full_weight
      → get_value "evidence_sources" c ≡ arr evidence
      → Standing c

-- The fields that a apply_call writes.
abbrev pub written : List String
written = "status" ∷ "weight" ∷ "evidence_sources" ∷ "updated_at" ∷ []

-- The other fields are as they were.
abbrev pub Keeps : Fields → Fields → Type 0
Keeps c c' = (k : String) → mem_text k written ≡ false → get k c' ≡ get k c

put-Keeps :
    (j : String) (v : Value) (c d : Fields)
    → mem_text j written ≡ true
    → Keeps c d
    → Keeps c (put j v d)
unfolding mem_text
put-Keeps j v c d m h k n = get-put_other k j v d (differs j k m n) ∙ h k n
  where
    differs :
        (j k : String) → mem_text j written ≡ true → mem_text k written ≡ false → (j == k) ≡ false
    differs j k m n = elim (Bool-cases (j == k)) [
      | inr e ↦ e
      | inl e ↦ absurd (cc (subst (λ x. mem_text x written ≡ true) ((eq_iff j k).0 e) m))
    ]

unsettled_ok :
    (c : Fields) (rule : Rule)
    → expect_unsettled c rule ≡ ok tt
    → (s : String) × (get_value "status" c ≡ str s)
      × (mem_text s ("claimed_by_user" ∷ "unverified" ∷ []) ≡ true)
unfolding expect_unsettled is_settled
unsettled_ok c rule h0 =
    let (_, h1) = refuse_ok (not (has_text "source" "user" c)) _ _ h0 in
    let (b, hb, h2) = bind_ok (is_settled (get_value "status" c)) _ h1 in
    open_status (get_value "status" c) (hb ∙ ap ok (refuse_passed b _ h2))
  where
    open_status :
        (v : Value)
        → is_settled v ≡ ok false
        → (s : String) × (v ≡ str s) × (mem_text s ("claimed_by_user" ∷ "unverified" ∷ []) ≡ true)
    open_status (str s) h = (s, refl, not-false _ (ok-injective h))
    open_status Value.null h = absurd (cc h)
    open_status _ h = absurd (cc h)

-- An unsettled claim has no evidence yet.
no_evidence_yet :
    (c : Fields) (rule : Rule)
    → expect_unsettled c rule ≡ ok tt
    → Standing c
    → get_value "evidence_sources" c ≡ arr nil
unfolding mem_text
no_evidence_yet c rule h (unproved _ _ _ _ e) = e
no_evidence_yet c rule h (proved _ _ st _ _) =
    let (s, hs, hm) = unsettled_ok c rule h in
    absurd (
      cc (
        subst (λ x. mem_text x ("claimed_by_user" ∷ "unverified" ∷ []) ≡ true)
          (str-injective (sym hs ∙ st)) hm))
  where
    str-injective : {a b : String} → str a ≡ str b → a ≡ b
    str-injective q = cc q

apply_call-Standing :
    (call : Call) (c : Fields) {c' : Fields}
    → apply_call call c ≡ ok c'
    → Standing c
    → Standing c' × Keeps c c'
unfolding apply_call mark_claim_unverified verify_claim mem_text
apply_call-Standing (mark now) c {c'} h0 s =
    let (hu, h1) = then_ok (expect_unsettled c Rule.not_markable) _ h0 in
    let n = no_evidence_yet c _ hu s in
    subst (λ x. Standing x × Keeps c x) (ok-injective h1)
      (
        unproved "unverified" refl
            (get_value-put_other "status" "updated_at" _ _ refl
              ∙ get_value-put_other "status" "weight" _ _ refl
              ∙ get_value-put "status" _ _)
            (get_value-put_other "weight" "updated_at" _ _ refl ∙ get_value-put "weight" _ _)
            (get_value-put_other "evidence_sources" "updated_at" _ _ refl
              ∙ get_value-put_other "evidence_sources" "weight" _ _ refl
              ∙ get_value-put_other "evidence_sources" "status" _ _ refl
              ∙ n),
        put-Keeps "updated_at" _ c _ refl
            (put-Keeps "weight" _ c _ refl (put-Keeps "status" _ c c refl (λ k m. refl))),
      )
apply_call-Standing (verify evidence now) c {c'} h0 s =
    let (hu, h1) = then_ok (expect_unsettled c Rule.not_verifiable) _ h0 in
    let (he, h2) = refuse_ok (not (is_evidence evidence)) _ _ h1 in
    subst (λ x. Standing x × Keeps c x) (ok-injective h2)
      (
        proved evidence (not-false _ he)
            (get_value-put_other "status" "updated_at" _ _ refl
              ∙ get_value-put_other "status" "evidence_sources" _ _ refl
              ∙ get_value-put_other "status" "weight" _ _ refl
              ∙ get_value-put "status" _ _)
            (get_value-put_other "weight" "updated_at" _ _ refl
              ∙ get_value-put_other "weight" "evidence_sources" _ _ refl
              ∙ get_value-put "weight" _ _)
            (get_value-put_other "evidence_sources" "updated_at" _ _ refl
              ∙ get_value-put "evidence_sources" _ _),
        put-Keeps "updated_at" _ c _ refl (
            put-Keeps "evidence_sources" _ c _ refl
              (put-Keeps "weight" _ c _ refl (put-Keeps "status" _ c c refl (λ k m. refl)))),
      )

run_calls-Standing :
    (calls : List Call) (c : Fields)
    → Standing c
    → Standing (run_calls calls c) × Keeps c (run_calls calls c)
unfolding run_calls
run_calls-Standing [] c s = (s, λ k m. refl)
run_calls-Standing (call ∷ calls) c s = elim (Result-cases (apply_call call c)) [
  | inl (c', e) ↦
      let (s', kept) = apply_call-Standing call c e s in
      let (t, rest) = run_calls-Standing calls c' s' in
      rw (e, run_calls) (t, λ k m. rest k m ∙ kept k m)
  | inr (x, e) ↦ rw (e, run_calls) (run_calls-Standing calls c s)
]

-- Under any calls a claim of a user keeps what it states and who has made it; it has full weight and
-- says `verified` only with evidence of which each source has a path, and no weight before.
pub claim_lifecycle :
    (s : Statement) (created updated : String) (c : Fields)
    → new_user_claim s created updated ≡ ok c
    → (calls : List Call) → Standing (run_calls calls c) × Keeps c (run_calls calls c)
unfolding new_user_claim get_value get mem_text
claim_lifecycle s created updated c h calls =
    let (_, h1) =
      refuse_ok
        (not (is_text s.claim_id && is_text s.entity && is_text s.metric && is_text s.value)) _ _
        h in
    run_calls-Standing calls c
      (subst Standing (ok-injective h1) (unproved "claimed_by_user" refl refl refl refl))

-- A claim that is verified stays so: neither apply_call accepts it, whatever evidence is brought.
pub verified_final :
    (c : Fields) (evidence : Items) (now : String)
    → get_value "status" c ≡ str "verified"
    → (mark_claim_unverified c now ≡ err (refused Rule.not_markable))
      × (verify_claim c evidence now ≡ err (refused Rule.not_verifiable))
unfolding mark_claim_unverified verify_claim expect_unsettled is_settled mem_text
verified_final c evidence now h = (rw (settled Rule.not_markable), rw (settled Rule.not_verifiable))
  where
    settled : (rule : Rule) → expect_unsettled c rule ≡ err (refused rule)
    settled rule = elim (Bool-cases (has_text "source" "user" c)) [
      | inl e ↦ rw (expect_unsettled, e, h)
      | inr e ↦ rw (expect_unsettled, e)
    ]
