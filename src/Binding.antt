-- ===== src/Binding.antt =====
-- app/facts_tree/company_binding.py, manifest_registry.py and tree_meta.py: the tables, and what
-- their code takes from the template packs, the settings and the clock.
pub mod Archive
pub mod Meta
pub mod Checks
pub mod Store
pub mod Chain
pub mod Tables
pub mod Sound
pub mod Calls
pub mod History
pub mod Locked
pub mod Examples
use startup_ai_manager.Base.{
  ℕ, String, Bool, true, false, Option, none, some, List, [], ◌∷◌, ◌==◌, if◌then◌else◌, Exec, Ends,
  Result, ok, err,
}

-- A call that raises; each is a `ValueError`, but for `disabled`, `is_read_only` and
-- `locked_or_nonempty`.
pub data Error : Type 0 where
  disabled is_read_only locked_or_nonempty : Error
  bad_identifier out_of_scope unsupported_pack blank_name : Error
  pack_unavailable version_unavailable no_digest digest_mismatch : Error
  no_history revision_gap bad_record_type names_previous chain_broken : Error
  revision_differs identity_differs : Error
  no_archive archive_corrupt archive_digest archive_conflict recomputed_differs : Error
  already_registered not_registered : Error
  blank_meta bad_version bad_digest bad_source bad_revision : Error

-- `DIGEST_SOURCES`
pub data Source : Type 0 where
  legacy_bootstrap verified_manifest : Source

-- A row of `company_tree_meta`.
pub record Binding : Type 0 where
  pub company_id : String
  pub display_name : String
  pub template_pack : String
  pub pack_version : ℕ
  pub bound_at : String
  pub locked : Bool
  pub pack_digest : Option String
  pub digest_source : Option Source
  pub binding_revision : ℕ

-- The pack, the version and the digest that a row of the history names.
pub record Identity : Type 0 where
  pub pack : String
  pub version : ℕ
  pub digest : Option String

pub data RecordType : Type 0 where
  initial bootstrap rebind : RecordType

-- A row of `company_template_binding_history`.
pub record HistoryRow : Type 0 where
  pub company_id : String
  pub revision : ℕ
  pub identity : Identity
  pub previous : Option Identity
  pub event_at : String
  pub reason : String
  pub record_type : RecordType

-- A row of `template_manifests`.
pub record Manifest : Type 0 where
  pub pack_id : String
  pub pack_version : ℕ
  pub manifest_sha256 : String
  pub manifest_json : String
  pub actor : String
  pub reason : String
  pub archived_at : String

-- A row of `company_tree_meta_projection`; its JSON text is kept as the row that it encodes.
pub record Projection : Type 0 where
  pub company_id : String
  pub content : Binding

pub record Db : Type 0 where
  pub bindings : List Binding
  pub history : List HistoryRow
  pub manifests : List Manifest
  pub projections : List Projection

-- `TemplatePack`, with the text that `manifest_json(manifest_document(pack))` gives for it.
pub record Pack : Type 0 where
  pub pack : String
  pub version : ℕ
  pub manifest_sha256 : String
  pub canonical : String

-- What one call finds: the packs that can be loaded, SHA-256, Unicode's letters and digits, the
-- settings, the company that the store is made for, the other tables, and the clock.
pub record Host : Type 0 where
  pub load_pack : String → Option Pack
  pub sha256 : String → String
  pub is_alnum : ℕ → Bool
  pub enabled : Bool
  pub read_only : Bool
  pub scope : Option String
  pub is_empty : String → Bool
  pub now : String

abbrev rollback : {A : Type 0} → Db → Result Error A × Db → Result Error A × Db
rollback s (ok a, t) = (ok a, t)
rollback s (err e, t) = (err e, s)

-- `with self.db`: what a call that raises has written is rolled back.
unfoldable pub atomically : {A : Type 0} → Exec Error Db A → Exec Error Db A
atomically m s = rollback s (m s)

pub atomically-Ends :
    {A : Type 0} {P : Result Error A × Db → Type 0} (m : Exec Error Db A) (s : Db)
    → ((e : Error) → P (err e, s))
    → Ends P s m
    → Ends P s (atomically m)
unfolding atomically
atomically-Ends {P = P} m s fails h = record { at = go (m s) h.at }
  where
    go : (o : Result Error _ × Db) → P o → P (rollback s o)
    go (ok a, t) p = p
    go (err e, t) p = fails e
