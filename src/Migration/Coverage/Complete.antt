-- ===== src/Migration/Coverage/Complete.antt =====
-- A plan document with a clear coverage section opens the gate.
use startup_ai_manager.Base.{
  sorted_by, ◌≡◌, ◌≢◌, refl, ap, ◌∙◌, arith, String, true, false, not, ◌&&◌, Option, none, some,
  List, [], ◌∷◌, ◌==◌, eq_iff, mem_text, keep, All, ok, Bool-cases, inl, inr,
}
use startup_ai_manager.Json.{Items, nil, cons, arr, str, Value, Fields, get, get_value, is_text}
use startup_ai_manager.Migration.Coverage.{
  texts, Entry, snapshot_categories, coverage_pass_statuses, coverage_blocking_statuses,
  coverage_statuses, coverage_proof_fields, coverage_facts_only_statuses, known_status, read_notes,
  blank_field, read_proof, check_proof, normalize_entry, normalize_entries, normalize_coverage,
  is_blocking, blocking_entries, caught, coverage_blocking_reasons,
}
use startup_ai_manager.Migration.Coverage.Passes.{Passes, AllTexts, IsNotes}
use startup_ai_manager.Migration.Coverage.Gate.{IsClear}

pass_known :
    (s : String) → mem_text s coverage_pass_statuses ≡ true → mem_text s coverage_statuses ≡ true
unfolding mem_text
pass_known s h = ground arith

pass_not_blocking :
    (s : String)
    → mem_text s coverage_pass_statuses ≡ true
    → mem_text s coverage_blocking_statuses ≡ false
unfolding mem_text
pass_not_blocking s h = elim (Bool-cases (s == "ok")) [
  | inl e ↦ rw ((eq_iff s "ok").0 e) refl
  | inr n ↦ elim (Bool-cases (s == "confirmed_absent")) [
    | inl e ↦ rw ((eq_iff s "confirmed_absent").0 e) refl
    | inr m ↦ elim (Bool-cases (s == "legacy_bootstrap_derived")) [
      | inl e ↦ rw ((eq_iff s "legacy_bootstrap_derived").0 e) refl
      | inr k ↦ absurd (cc (rw (n, m, k) at h))
    ]
  ]
]

blank_field-All :
    (fs : List String) (proof : Fields)
    → All (λ f. is_text (get_value f proof) ≡ true) fs
    → blank_field fs proof ≡ none
unfolding blank_field
blank_field-All [] proof h = refl
blank_field-All (f ∷ fs) proof h = rw (h.0, blank_field-All fs proof h.1) refl

AllTexts-texts : (vs : Items) → AllTexts vs → (ss : List String) × (texts vs ≡ some ss)
unfolding texts
AllTexts-texts nil h = ([], refl)
AllTexts-texts (cons (str s) vs) h =
    let (ss, e) = AllTexts-texts vs h.1 in (s ∷ ss, rw (h.0, e) refl)
AllTexts-texts (cons _ vs) h = absurd h

IsNotes-read_notes : (o : Option Value) → IsNotes o → (ns : List String) × (read_notes o ≡ some ns)
unfolding read_notes
IsNotes-read_notes none h = ([], refl)
IsNotes-read_notes (some (arr vs)) h =
    let (ss, e) = AllTexts-texts vs h in (sorted_by (λ s. s) ss, rw (e, read_notes) refl)
IsNotes-read_notes (some _) h = absurd h

not_equal : (s t : String) → (s == t) ≡ false → s ≢ t
not_equal s t h e = cc ((eq_iff s t).1 e, h)

module _ (category : String) (value : Value) (p : Passes category value) where
  facts_only : (mem_text p.status coverage_facts_only_statuses && not (category == "facts")) ≡ false
  unfolding mem_text
  facts_only = elim (Bool-cases (p.status == "legacy_bootstrap_derived")) [
    | inl e ↦
        rw
          (
            e,
            (eq_iff category "facts").1
                (p.facts_only ((eq_iff p.status "legacy_bootstrap_derived").0 e)),
          )
          refl
    | inr n ↦ rw n refl
  ]

  proof_passes :
      (proof : Option Fields) × (check_proof category p.status (get_value "proof" p.entry)
        ≡ ok proof)
  unfolding check_proof read_proof
  proof_passes = elim (Bool-cases (p.status == "confirmed_absent")) [
    | inl e ↦
        let (proof, is_dict, same, full) = p.proven ((eq_iff p.status "confirmed_absent").0 e) in
        (
          some proof,
          rw (e, is_dict) (rw (same, blank_field-All coverage_proof_fields proof full) refl),
        )
    | inr n ↦ (none, rw (n, p.unproven (not_equal p.status "confirmed_absent" n)) refl)
  ]

  -- A category that passes is normalized, and does not block.
  Passes-normalize_entry :
      (e : Entry) × (normalize_entry category value ≡ ok e) × (is_blocking (category, e) ≡ false)
  unfolding normalize_entry known_status
  Passes-normalize_entry =
      let (notes, good) = IsNotes-read_notes (get "notes" p.entry) p.notes in
      let (proof, checked) = proof_passes in
      (
        record { status = p.status; notes = notes; proof = proof },
        ap (normalize_entry category) p.is_dict
            ∙ rw
                (
                  p.no_other_keys,
                  p.has_status,
                  pass_known p.status p.passing,
                  facts_only,
                  good,
                  checked,
                )
                refl,
        pass_not_blocking p.status p.passing,
      )

Passes-normalize_entries :
    (cs : List String) (coverage : Fields)
    → All (λ c. Passes c (get_value c coverage)) cs
    → (es : List (String × Entry)) × (normalize_entries cs coverage ≡ ok es)
      × (keep is_blocking es ≡ [])
unfolding normalize_entries
Passes-normalize_entries [] coverage h = ([], refl, refl)
Passes-normalize_entries (c ∷ cs) coverage h =
    let (e, one, open_e) = Passes-normalize_entry c (get_value c coverage) h.0 in
    let (es, rest, open_es) = Passes-normalize_entries cs coverage h.1 in
    ((c, e) ∷ es, rw (one, rest) refl, rw (open_e, keep) open_es)

-- The gate opens for every document with a complete coverage section: exactly the eight categories,
-- each of which passes.
pub gate_complete :
    (document : Value) → IsClear document → coverage_blocking_reasons document ≡ ok []
unfolding coverage_blocking_reasons caught normalize_coverage blocking_entries sorted_by
gate_complete document c =
    let (es, normal, none_blocks) =
      Passes-normalize_entries snapshot_categories c.coverage c.passes in
    rw (c.section) (rw (c.categories, normal) (rw none_blocks refl))
