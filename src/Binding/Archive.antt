-- ===== src/Binding/Archive.antt =====
-- app/facts_tree/manifest_registry.py: `ManifestRegistry`.
use startup_ai_manager.Base.{
  ℕ, String, not, ◌&&◌, ◌||◌, eqb, Option, none, some, List, [], ◌∷◌, ◌++◌, ◌==◌, if◌then◌else◌,
  is_blank, Result, ok, err, Exec, raise_if, ◌>>◌,
}
use startup_ai_manager.Binding.{
  Error, recomputed_differs, archive_corrupt, archive_conflict, archive_digest, blank_meta,
  Manifest, Db, Pack, Host,
}

-- `SELECT * FROM template_manifests WHERE pack_id=? AND pack_version=?`
unfoldable pub find_manifest : String → ℕ → List Manifest → Option Manifest
find_manifest pack version [] = none
find_manifest pack version (m ∷ ms) =
    if m.pack_id == pack && eqb m.pack_version version
    then some m
    else find_manifest pack version ms

-- `_verify`
unfoldable pub verify_archive : Host → Manifest → Result Error Manifest
verify_archive host m =
    if host.sha256 m.manifest_json == m.manifest_sha256 then ok m else err archive_corrupt

abbrev pub archive_row : Host → Pack → String → String → Manifest
archive_row host p actor reason = record {
  pack_id = p.pack;
  pack_version = p.version;
  manifest_sha256 = host.sha256 p.canonical;
  manifest_json = p.canonical;
  actor = actor;
  reason = reason;
  archived_at = host.now;
}

-- The archive that is there already must be the same.
unfoldable pub same_archive : Host → Pack → Manifest → Result Error Manifest
same_archive host p m = elim (verify_archive host m) [
  | err e ↦ err e
  | ok r ↦
      if r.manifest_sha256 == host.sha256 p.canonical && r.manifest_json == p.canonical
      then ok r
      else err archive_conflict
]

unfoldable pub archive : Host → Pack → String → String → Option Manifest → Exec Error Db Manifest
archive host p actor reason (some m) db = (same_archive host p m, db)
archive host p actor reason none db =
    let row = archive_row host p actor reason in
    (ok row, record db { manifests = db.manifests ++ row ∷ [] })

unfoldable pub ensure_archived : Host → Pack → String → String → Exec Error Db Manifest
ensure_archived host p actor reason = do
  raise_if (is_blank actor || is_blank reason) blank_meta
  raise_if (not (host.sha256 p.canonical == p.manifest_sha256)) recomputed_differs
  λ db. archive host p actor reason (find_manifest p.pack p.version db.manifests) db

-- `get(..., expected_digest=digest)`
unfoldable pub get_archive :
    Host → String → ℕ → Option String → List Manifest → Result Error (Option Manifest)
get_archive host pack version expected ms = elim (find_manifest pack version ms) [
  | none ↦ ok none
  | some m ↦ elim (verify_archive host m) [
    | err e ↦ err e
    | ok r ↦ elim expected [
      | none ↦ ok (some r)
      | some digest ↦ if r.manifest_sha256 == digest then ok (some r) else err archive_digest
    ]
  ]
]
