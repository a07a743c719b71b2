-- ===== src/Binding/Checks.antt =====
-- app/facts_tree/company_binding.py: `_verify`, `_check_history` and `_check_manifest`.
use startup_ai_manager.Base.{
  ℕ, suc, String, Bool, true, false, not, ◌&&◌, eqb, leb, Option, none, some, List, [], ◌∷◌,
  last_or, keep, ◌==◌, if◌then◌else◌, Result, ok, err,
}
use startup_ai_manager.Base.Checks.{◌>>=◌, ◌>>◌, refuse}
use startup_ai_manager.Binding.{
  Error, pack_unavailable, version_unavailable, no_digest, digest_mismatch, no_history,
  revision_gap, bad_record_type, names_previous, chain_broken, revision_differs, identity_differs,
  no_archive, Binding, Identity, RecordType, HistoryRow, Db, Pack, Host, Source,
}
use startup_ai_manager.Binding.Archive.{get_archive}

abbrev pub same_text : Option String → Option String → Bool
same_text none none = true
same_text (some a) (some b) = a == b
same_text _ _ = false

unfoldable pub same_identity : Identity → Identity → Bool
same_identity a b = a.pack == b.pack && eqb a.version b.version && same_text a.digest b.digest

-- The identity that a binding names.
abbrev pub identity_of : Binding → Identity
identity_of b = record { pack = b.template_pack; version = b.pack_version; digest = b.pack_digest }

abbrev has_source : Option Source → Bool
has_source none = false
has_source (some s) = true

unfoldable pub check_digest : Pack → Option Source → Option String → Result Error (Unit {0})
check_digest p source none = err no_digest
check_digest p source (some d) = do
  refuse (not (has_source source)) no_digest
  refuse (not (p.manifest_sha256 == d)) digest_mismatch

unfoldable pub check_pack : Binding → Pack → Result Error (Unit {0})
check_pack b p = do
  refuse (not (eqb p.version b.pack_version)) version_unavailable
  check_digest p b.digest_source b.pack_digest

unfoldable pub verify : Host → Binding → Result Error (Unit {0})
verify host b = elim (host.load_pack b.template_pack) [
  | none ↦ err pack_unavailable
  | some p ↦ check_pack b p
]

-- `ORDER BY binding_revision`
unfoldable pub insert_row : HistoryRow → List HistoryRow → List HistoryRow
insert_row r [] = r ∷ []
insert_row r (q ∷ qs) =
    let rest = insert_row r qs in if leb r.revision q.revision then r ∷ q ∷ qs else q ∷ rest

unfoldable pub by_revision : List HistoryRow → List HistoryRow
by_revision [] = []
by_revision (r ∷ rs) = insert_row r (by_revision rs)

-- `revisions == list(range(n, ...))`
unfoldable pub counts_from : ℕ → List HistoryRow → Bool
counts_from n [] = true
counts_from n (r ∷ rs) = eqb r.revision n && counts_from (suc n) rs

abbrev pub is_first_type : RecordType → Bool
is_first_type RecordType.rebind = false
is_first_type _ = true

abbrev pub names_none : Option Identity → Bool
names_none none = true
names_none (some i) = false

-- The previous identity of a row is the identity of the row before it.
unfoldable pub linked : HistoryRow → HistoryRow → Bool
linked p c = elim c.previous [ none ↦ false | some i ↦ same_identity i p.identity ]

unfoldable pub links : HistoryRow → List HistoryRow → Bool
links p [] = true
links p (c ∷ cs) = linked p c && links c cs

-- `_check_history` on the rows of the company in order
unfoldable pub check_rows : List HistoryRow → Binding → Result Error (Unit {0})
check_rows [] b = err no_history
check_rows (first ∷ rest) b = do
  refuse (not (counts_from 1 (first ∷ rest))) revision_gap
  refuse (not (is_first_type first.record_type)) bad_record_type
  refuse (not (names_none first.previous)) names_previous
  refuse (not (links first rest)) chain_broken
  refuse (not (eqb (last_or first rest).revision b.binding_revision)) revision_differs
  refuse (not (same_identity (last_or first rest).identity (identity_of b))) identity_differs

-- The rows of one company.
unfoldable pub rows_of : String → List HistoryRow → List HistoryRow
rows_of company rows = keep (λ r. HistoryRow.company_id r == company) rows

unfoldable pub check_history : Db → Binding → Result Error (Unit {0})
check_history db b = check_rows (by_revision (rows_of b.company_id db.history)) b

unfoldable pub check_manifest : Host → Db → Binding → Result Error (Unit {0})
check_manifest host db b =
    get_archive host b.template_pack b.pack_version b.pack_digest db.manifests >>= λ found.
    elim found [ none ↦ err no_archive | some m ↦ ok tt ]
