-- ===== src/Migration/Coverage/Passes.antt =====
-- What one category of the coverage must hold for the gate to open.
use startup_ai_manager.Base.{
  is_blank, some, String, true, false, not, ◌&&◌, ◌≡◌, ◌≢◌, refl, Option, none, List, [], ◌∷◌, ◌==◌,
  arith, eq_iff, mem_text, all_of, All, ok, err, ok-injective, Result-cases, Option-cases,
  Bool-cases, inl, inr, ap, subst, if◌then◌else◌,
}
use startup_ai_manager.Json.{
  arr, str, Items, nil, cons, Value, null, obj, Fields, get, get_value, keys, is_text, is_present,
}
use startup_ai_manager.Migration.Coverage.{
  texts, Fault, Entry, coverage_pass_statuses, coverage_blocking_statuses, coverage_statuses,
  coverage_fields, coverage_proof_fields, coverage_facts_only_statuses, same_set, known_status,
  read_notes, blank_field, read_proof, check_proof, normalize_entry, is_blocking,
}

-- Every item is a nonempty text.
abbrev pub AllTexts : Items → Type 0
AllTexts nil = Unit
AllTexts (cons (str s) vs) = (is_blank s ≡ false) × AllTexts vs
AllTexts (cons _ vs) = ⊥

-- The notes of an entry: none, or a list of nonempty texts.
abbrev pub IsNotes : Option Value → Type 0
IsNotes none = Unit
IsNotes (some (arr vs)) = AllTexts vs
IsNotes (some _) = ⊥

texts-AllTexts : (vs : Items) → texts vs ≢ none → AllTexts vs
unfolding texts
texts-AllTexts nil h = tt
texts-AllTexts (cons (str s) vs) h = elim (Bool-cases (is_blank s)) [
  | inl e ↦ absurd (h (rw (e, texts) refl))
  | inr e ↦ (e, texts-AllTexts vs (λ q. h (rw (e, q, texts) refl)))
]
texts-AllTexts (cons _ vs) h = absurd (h refl)

read_notes-IsNotes : (o : Option Value) → read_notes o ≢ none → IsNotes o
unfolding read_notes
read_notes-IsNotes none h = tt
read_notes-IsNotes (some (arr vs)) h = texts-AllTexts vs (λ q. h (rw (q, read_notes) refl))
read_notes-IsNotes (some _) h = absurd (h refl)

-- What one category must hold: a dict with no other keys, a status that does not block, notes that
-- are nonempty texts, and a complete proof where and only where the status is `confirmed_absent`.
pub record Passes (category : String) (value : Value) : Type 0 where
  pub entry : Fields
  pub is_dict : value ≡ obj entry
  pub no_other_keys : all_of (λ k. mem_text k coverage_fields) (keys entry) ≡ true
  pub status : String
  pub has_status : get_value "status" entry ≡ str status
  pub passing : mem_text status coverage_pass_statuses ≡ true
  pub facts_only : status ≡ "legacy_bootstrap_derived" → category ≡ "facts"
  pub notes : IsNotes (get "notes" entry)
  pub proven :
      status ≡ "confirmed_absent"
      → (proof : Fields) × (get_value "proof" entry ≡ obj proof)
        × (same_set (keys proof) coverage_proof_fields ≡ true)
        × All (λ f. is_text (get_value f proof) ≡ true) coverage_proof_fields
  pub unproven : status ≢ "confirmed_absent" → get_value "proof" entry ≡ null

known_status-ok :
    (category : String) (v : Value) (s : String)
    → known_status category v ≡ ok s
    → (v ≡ str s) × (mem_text s coverage_statuses ≡ true)
unfolding known_status
known_status-ok category (str t) s h = elim (Bool-cases (mem_text t coverage_statuses)) [
  | inl m ↦
      let e : t ≡ s = ok-injective (rw m at h) in
      (ap str e, subst (λ x. mem_text x coverage_statuses ≡ true) e m)
  | inr n ↦ absurd (cc (rw n at h))
]
known_status-ok category _ s h = absurd (cc h)

-- A known status that is none of the blocking ones passes.
pass_or_block :
    (s : String)
    → mem_text s coverage_statuses ≡ true
    → mem_text s coverage_blocking_statuses ≡ false
    → mem_text s coverage_pass_statuses ≡ true
unfolding mem_text
pass_or_block s m b = ground arith

blank_field-none :
    (fs : List String) (proof : Fields)
    → blank_field fs proof ≡ none
    → All (λ f. is_text (get_value f proof) ≡ true) fs
unfolding blank_field
blank_field-none [] proof h = tt
blank_field-none (f ∷ fs) proof h = ground (arith, blank_field-none fs proof)

read_proof-ok :
    (category : String) (v : Value) (p : Option Fields)
    → read_proof category v ≡ ok p
    → (proof : Fields) × (v ≡ obj proof)
      × (same_set (keys proof) coverage_proof_fields ≡ true)
      × All (λ f. is_text (get_value f proof) ≡ true) coverage_proof_fields
unfolding read_proof
read_proof-ok category (obj proof) p h =
    elim (Bool-cases (same_set (keys proof) coverage_proof_fields)) [
      | inl same ↦ elim (Option-cases (blank_field coverage_proof_fields proof)) [
        | inl full ↦ (proof, refl, same, blank_field-none coverage_proof_fields proof full)
        | inr (f, blank) ↦ absurd (cc (rw (same, blank) at h))
      ]
      | inr other ↦ absurd (cc (rw other at h))
    ]
read_proof-ok category _ p h = absurd (cc h)

present-null : (v : Value) → is_present v ≡ false → v ≡ null
present-null null h = refl
present-null _ h = absurd (cc h)

unexpected_proof-ok :
    (category : String) (v : Value) (p : Option Fields)
    → (if is_present v then err (Fault.unexpected_proof category) else ok none) ≡ ok p
    → v ≡ null
unexpected_proof-ok category v p h = elim (Bool-cases (is_present v)) [
  | inl present ↦ absurd (cc (rw present at h))
  | inr absent ↦ present-null v absent
]

module _ (category : String) (entry : Fields) where
  -- The checks of `normalize_entry` behind its first.
  Checked : String → Option Fields → Type 0
  Checked status proof =
      (get_value "status" entry ≡ str status)
      × (mem_text status coverage_statuses ≡ true)
      × ((mem_text status coverage_facts_only_statuses && not (category == "facts")) ≡ false)
      × (read_notes (get "notes" entry) ≢ none)
      × (check_proof category status (get_value "proof" entry) ≡ ok proof)
      × (all_of (λ k. mem_text k coverage_fields) (keys entry) ≡ true)

  normalize_entry-Checked :
      (e : Entry) → normalize_entry category (obj entry) ≡ ok e → Checked e.status e.proof
  unfolding normalize_entry Checked
  normalize_entry-Checked e h =
      elim (Bool-cases (all_of (λ k. mem_text k coverage_fields) (keys entry))) [
        | inr unknown ↦ absurd (cc (rw unknown at h))
        | inl known ↦ elim (Result-cases (known_status category (get_value "status" entry))) [
          | inr (x, is_x) ↦ absurd (cc (rw (known, is_x) at h))
          | inl (s, is_s) ↦
              elim (Bool-cases
                (mem_text s coverage_facts_only_statuses && not (category == "facts"))) [
                  | inl other ↦ absurd (cc (rw (known, is_s, other) at h))
                  | inr facts ↦ elim (Option-cases (read_notes (get "notes" entry))) [
                    | inl bad ↦ absurd (cc (rw (known, is_s, facts, bad) at h))
                    | inr (ns, good) ↦
                        elim (Result-cases (check_proof category s (get_value "proof" entry))) [
                          | inr (x, is_x) ↦ absurd (cc (rw (known, is_s, facts, good, is_x) at h))
                          | inl (p, is_p) ↦
                              let made = ok-injective (rw (known, is_s, facts, good, is_p) at h) in
                              let status_ok =
                                known_status-ok category (get_value "status" entry) s is_s in
                              subst (λ e. Checked e.status e.proof) made
                                (
                                  status_ok.0,
                                  status_ok.1,
                                  facts,
                                  (λ none_read. cc (none_read, good)),
                                  is_p,
                                  known,
                                )
                        ]
                  ]
                ]
        ]
      ]

  facts_only-category :
      (status : String)
      → (mem_text status coverage_facts_only_statuses && not (category == "facts")) ≡ false
      → status ≡ "legacy_bootstrap_derived"
      → category ≡ "facts"
  unfolding mem_text
  facts_only-category status h e =
      ground (arith, eq_iff status "legacy_bootstrap_derived", eq_iff category "facts")

  Checked-Passes :
      (e : Entry)
      → Checked e.status e.proof
      → is_blocking (category, e) ≡ false
      → Passes category (obj entry)
  unfolding Checked check_proof
  Checked-Passes e (status, known, facts, notes, proof, keys_ok) b = record {
    entry = entry;
    is_dict = refl;
    no_other_keys = keys_ok;
    status = e.status;
    has_status = status;
    passing = pass_or_block e.status known b;
    facts_only = facts_only-category e.status facts;
    notes = read_notes-IsNotes (get "notes" entry) notes;
    proven = λ absent.
        read_proof-ok category (get_value "proof" entry) e.proof
          (rw ((eq_iff e.status "confirmed_absent").1 absent) at proof);
    unproven = λ other.
        unexpected_proof-ok category (get_value "proof" entry) e.proof
          (rw (ne_test e.status "confirmed_absent" other) at proof);
  }
    where
      ne_test : (s t : String) → s ≢ t → (s == t) ≡ false
      ne_test s t ne = elim (Bool-cases (s == t)) [
        | inl e ↦ absurd (ne ((eq_iff s t).0 e))
        | inr n ↦ n
      ]

-- An entry that is normalized and does not block passes.
pub normalize_entry-Passes :
    (category : String) (v : Value) (e : Entry)
    → normalize_entry category v ≡ ok e
    → is_blocking (category, e) ≡ false
    → Passes category v
unfolding normalize_entry
normalize_entry-Passes category (obj entry) e h b =
    Checked-Passes category entry e (normalize_entry-Checked category entry e h) b
normalize_entry-Passes category _ e h b = absurd (cc h)
