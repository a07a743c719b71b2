-- ===== src/Migration/Coverage.antt =====
-- app/facts_tree/migration_plans.py: the snapshot coverage contract. A `ValueError` is a `Fault`
-- other than `type_error`; the gate catches the former only.
pub mod Passes
pub mod Gate
pub mod Complete
use startup_ai_manager.Base.{
  String, Bool, true, false, not, ◌&&◌, ◌||◌, Option, none, some, List, [], ◌∷◌, ◌++◌, ◌==◌, map,
  if◌then◌else◌, mem_text, is_blank, all_of, keep, sorted_by, Result, ok, err,
}
use startup_ai_manager.Json.{
  Value, null, bool, num, str, arr, obj, Items, nil, cons, Fields, end, field, get, get_value, keys,
  is_present, is_text,
}
use Prim.Native.String.{◌++◌ as concat}

abbrev pub snapshot_categories : List String
snapshot_categories =
    "facts" ∷ "placements" ∷ "evidence_links" ∷ "source_lifecycle" ∷ "leaf_revisions" ∷ "open_todos"
    ∷ "diagnostic_refs" ∷ "active_tasks" ∷ []

abbrev pub coverage_pass_statuses : List String
coverage_pass_statuses = "ok" ∷ "confirmed_absent" ∷ "legacy_bootstrap_derived" ∷ []

abbrev pub coverage_blocking_statuses : List String
coverage_blocking_statuses =
    "table_absent" ∷ "not_implemented" ∷ "ambiguous_provenance" ∷ "partial_identity_ledger"
    ∷ "identity_mismatch" ∷ "active_tasks_present" ∷ "unidentified_checkpoint"
    ∷ "pending_source_withdrawal" ∷ []

abbrev pub coverage_statuses : List String
coverage_statuses = coverage_pass_statuses ++ coverage_blocking_statuses

abbrev pub coverage_facts_only_statuses : List String
coverage_facts_only_statuses = "legacy_bootstrap_derived" ∷ []

abbrev pub coverage_proof_fields : List String
coverage_proof_fields = "statement" ∷ "confirmed_by" ∷ "confirmed_at" ∷ "method" ∷ []

abbrev pub coverage_fields : List String
coverage_fields = "status" ∷ "notes" ∷ "proof" ∷ []

-- The errors of `normalize_coverage`, each with the category that it names.
pub data Fault : Type 0 where
  not_object wrong_categories type_error : Fault
  entry_not_object unknown_fields unknown_status facts_only : String → Fault
  bad_notes bad_proof unexpected_proof : String → Fault
  bad_proof_field : String → String → Fault

-- One normalized category: the dict `{"status": …, "notes": …, "proof": …}`, where an empty list
-- and `none` stand for a key that is absent.
pub record Entry : Type 0 where
  pub status : String
  pub notes : List String
  pub proof : Option Fields

-- `set(xs) == set(ys)`
unfoldable pub same_set : List String → List String → Bool
same_set xs ys = all_of (λ x. mem_text x ys) xs && all_of (λ y. mem_text y xs) ys

-- `status not in COVERAGE_STATUSES`, which raises `TypeError` for a value that has no hash.
unfoldable pub known_status : String → Value → Result Fault String
known_status category (str s) =
    if mem_text s coverage_statuses then ok s else err (unknown_status category)
known_status category (arr _) = err type_error
known_status category (obj _) = err type_error
known_status category _ = err (unknown_status category)

-- A list of nonempty texts, or `none`.
unfoldable pub texts : Items → Option (List String)
texts nil = some []
texts (cons (str s) vs) =
    let rest = texts vs in
    if is_blank s then none else elim rest [ none ↦ none | some ss ↦ some (s ∷ ss) ]
texts (cons _ vs) = none

-- `entry.get("notes", [])`, checked and sorted.
unfoldable pub read_notes : Option Value → Option (List String)
unfolding texts
read_notes none = some []
read_notes (some (arr vs)) = elim (texts vs) [
  | none ↦ none
  | some ss ↦ some (sorted_by (λ s. s) ss)
]
read_notes (some _) = none

-- The loop over `COVERAGE_PROOF_FIELDS`: the first field that is no nonempty text.
unfoldable pub blank_field : List String → Fields → Option String
blank_field [] proof = none
blank_field (f ∷ fs) proof =
    let rest = blank_field fs proof in if is_text (get_value f proof) then rest else some f

unfoldable pub read_proof : String → Value → Result Fault (Option Fields)
unfolding blank_field
read_proof category (obj proof) =
    if same_set (keys proof) coverage_proof_fields
    then elim (blank_field coverage_proof_fields proof) [
      | none ↦ ok (some proof)
      | some f ↦ err (bad_proof_field category f)
    ]
    else err (bad_proof category)
read_proof category _ = err (bad_proof category)

infixl 5 ◌>>=◌
abbrev ◌>>=◌ : {A B : Type 0} → Result Fault A → (A → Result Fault B) → Result Fault B
ok a >>= f = f a
err e >>= f = err e

infixl 5 ◌>>◌
abbrev ◌>>◌ : {B : Type 0} → Result Fault (Unit {0}) → Result Fault B → Result Fault B
m >> k = m >>= λ _. k

abbrev raise_if : Bool → Fault → Result Fault (Unit {0})
raise_if true e = err e
raise_if false e = ok tt

-- The last test of the loop body: a proof is required for `confirmed_absent` alone.
unfoldable pub check_proof : String → String → Value → Result Fault (Option Fields)
unfolding read_proof
check_proof category status proof =
    if status == "confirmed_absent"
    then read_proof category proof
    else (if is_present proof then err (unexpected_proof category) else ok none)

-- The body of the loop over `SNAPSHOT_CATEGORIES`, on `coverage[category]`.
unfoldable pub normalize_entry : String → Value → Result Fault Entry
unfolding known_status read_notes check_proof
normalize_entry category (obj entry) = do
  raise_if (not (all_of (λ k. mem_text k coverage_fields) (keys entry))) (unknown_fields category)
  status ← known_status category (get_value "status" entry)
  raise_if (mem_text status coverage_facts_only_statuses && not (category == "facts"))
      (facts_only category)
  notes ← elim (read_notes (get "notes" entry)) [
    | none ↦ err (bad_notes category)
    | some ns ↦ ok ns
  ]
  proof ← check_proof category status (get_value "proof" entry)
  ok (record { status = status; notes = notes; proof = proof })
normalize_entry category _ = err (entry_not_object category)

-- The loop itself.
unfoldable pub normalize_entries : List String → Fields → Result Fault (List (String × Entry))
normalize_entries [] coverage = ok []
normalize_entries (c ∷ cs) coverage = do
  entry ← normalize_entry c (get_value c coverage)
  rest ← normalize_entries cs coverage
  ok ((c, entry) ∷ rest)

unfoldable pub normalize_coverage : Value → Result Fault (List (String × Entry))
normalize_coverage (obj coverage) =
    if same_set (keys coverage) snapshot_categories
    then normalize_entries snapshot_categories coverage
    else err wrong_categories
normalize_coverage _ = err not_object

-- `d.get(key) if isinstance(d, dict) else None`
abbrev pub member : String → Value → Value
member k (obj fs) = get_value k fs
member k _ = null

-- A reason that blocks the `validated` edge.
pub data Reason : Type 0 where
  no_coverage : Reason
  invalid_coverage : Fault → Reason
  blocking_status : String → String → Reason

abbrev pub is_blocking : String × Entry → Bool
is_blocking (category, entry) = mem_text entry.status coverage_blocking_statuses

pub reason_text : String × Entry → String
reason_text (category, entry) = concat category (concat ": " entry.status)

abbrev pub to_reason : String × Entry → Reason
to_reason (category, entry) = blocking_status category entry.status

-- `sorted(f"{category}: {status}" for … if status in COVERAGE_BLOCKING_STATUSES)`
unfoldable pub blocking_entries : List (String × Entry) → List Reason
blocking_entries entries = map to_reason (sorted_by reason_text (keep is_blocking entries))

-- The `except ValueError` of the gate: a `TypeError` passes through.
unfoldable pub caught : Result Fault (List (String × Entry)) → Result Fault (List Reason)
unfolding blocking_entries
caught (ok entries) = ok (blocking_entries entries)
caught (err type_error) = err type_error
caught (err e) = ok (invalid_coverage e ∷ [])

-- `json` null stands for an absent section.
unfoldable pub coverage_blocking_reasons : Value → Result Fault (List Reason)
unfolding caught normalize_coverage
coverage_blocking_reasons document =
    let coverage = member "coverage" (member "input_snapshot" document) in
    if is_present coverage then caught (normalize_coverage coverage) else ok (no_coverage ∷ [])
