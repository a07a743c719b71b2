-- ===== src/Migration/Coverage/Gate.antt =====
-- The gate on the `validated` edge: what a plan document must hold for the gate to open.
use startup_ai_manager.Base.{
  String, true, false, ◌≡◌, refl, List, [], ◌∷◌, map, arith, keep, All, sorted_by, sorted_by-nil,
  Result, ok, err, ok-injective, Result-cases, Bool-cases, inl, inr, sym, subst,
}
use startup_ai_manager.Json.{Value, obj, Fields, get_value, keys, is_present}
use startup_ai_manager.Migration.Coverage.{
  Fault, type_error, Entry, snapshot_categories, same_set, normalize_entry, normalize_entries,
  normalize_coverage, member, is_blocking, reason_text, to_reason, blocking_entries, caught,
  coverage_blocking_reasons,
}
use startup_ai_manager.Migration.Coverage.Passes.{Passes, normalize_entry-Passes}

map-nil : (l : List (String × Entry)) → map to_reason l ≡ [] → l ≡ []
map-nil [] h = refl
map-nil (x ∷ l) h = absurd (cc h)

keep_all_false :
    (x : String × Entry) (l : List (String × Entry))
    → keep is_blocking (x ∷ l) ≡ []
    → (is_blocking x ≡ false) × (keep is_blocking l ≡ [])
keep_all_false x l h = ground arith

normalize_entries-Passes :
    (cs : List String) (coverage : Fields) (es : List (String × Entry))
    → normalize_entries cs coverage ≡ ok es
    → keep is_blocking es ≡ []
    → All (λ c. Passes c (get_value c coverage)) cs
unfolding normalize_entries
normalize_entries-Passes [] coverage es h k = tt
normalize_entries-Passes (c ∷ cs) coverage es h k =
    elim (Result-cases (normalize_entry c (get_value c coverage))) [
      | inr (x, is_x) ↦ absurd (cc (rw is_x at h))
      | inl (e, is_e) ↦ elim (Result-cases (normalize_entries cs coverage)) [
        | inr (x, is_x) ↦ absurd (cc (rw (is_e, is_x) at h))
        | inl (rest, is_rest) ↦
            let made = ok-injective (rw (is_e, is_rest) at h) in
            let (one, others) =
              keep_all_false (c, e) rest (subst (λ l. keep is_blocking l ≡ []) (sym made) k) in
            (
              normalize_entry-Passes c (get_value c coverage) e is_e one,
              normalize_entries-Passes cs coverage rest is_rest others,
            )
      ]
    ]

-- The coverage section of a plan document that the gate lets through.
pub record IsClear (document : Value) : Type 0 where
  pub coverage : Fields
  pub section : member "coverage" (member "input_snapshot" document) ≡ obj coverage
  pub categories : same_set (keys coverage) snapshot_categories ≡ true
  pub passes : All (λ c. Passes c (get_value c coverage)) snapshot_categories

caught-ok :
    (r : Result Fault (List (String × Entry)))
    → caught r ≡ ok []
    → (es : List (String × Entry)) × (r ≡ ok es) × (keep is_blocking es ≡ [])
unfolding caught blocking_entries
caught-ok (ok es) h = (
  es,
  refl,
  sorted_by-nil reason_text (keep is_blocking es)
      (map-nil (sorted_by reason_text (keep is_blocking es)) (ok-injective h)),
)
caught-ok (err type_error) h = absurd (cc h)
caught-ok (err _) h = absurd (cc h)

normalize_coverage-IsClear :
    (document v : Value) (es : List (String × Entry))
    → member "coverage" (member "input_snapshot" document) ≡ v
    → normalize_coverage v ≡ ok es
    → keep is_blocking es ≡ []
    → IsClear document
unfolding normalize_coverage
normalize_coverage-IsClear document (obj coverage) es s h k =
    elim (Bool-cases (same_set (keys coverage) snapshot_categories)) [
      | inl same ↦ record {
        coverage = coverage;
        section = s;
        categories = same;
        passes = normalize_entries-Passes snapshot_categories coverage es (rw same at h) k;
      }
      | inr other ↦ absurd (cc (rw other at h))
    ]
normalize_coverage-IsClear document _ es s h k = absurd (cc h)

-- If the gate finds no reason to block, the document has a complete coverage section: exactly the
-- eight categories, each of which passes.
pub gate_sound : (document : Value) → coverage_blocking_reasons document ≡ ok [] → IsClear document
unfolding coverage_blocking_reasons
gate_sound document h =
    let v = member "coverage" (member "input_snapshot" document) in
    elim (Bool-cases (is_present v)) [
      | inr absent ↦ absurd (cc (rw absent at h))
      | inl present ↦
          let (es, normal, none_blocks) = caught-ok (normalize_coverage v) (rw present at h) in
          normalize_coverage-IsClear document v es refl normal none_blocks
    ]
