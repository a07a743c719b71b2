-- ===== src/Binding/Examples.antt =====
-- Runs of the binding store on concrete values.
use startup_ai_manager.Base.{
  ℕ, String, true, false, none, some, List, [], ◌∷◌, ◌++◌, ok, err, ◌≡◌, refl, ◌>>=◌,
}
use startup_ai_manager.Binding.{already_registered, Binding, HistoryRow, Source, Host}
use startup_ai_manager.Binding.Checks.{check_history}
use startup_ai_manager.Binding.Store.{find_binding, register, bind_pack, mark_locked}
use startup_ai_manager.Binding.Calls.{Call, register_company, bind_company, lock_company, run_calls}
use startup_ai_manager.Binding.History.{empty_db, history_holds, history_grows}
use startup_ai_manager.Binding.Locked.{locked_stays}
use startup_ai_manager.Binding.Calls.{run_call}
use startup_ai_manager.Binding.Store.{
  bind_found, check_binding, get_binding, insert_new, lock_row, lock_steps, may_bind, project,
  project_row, rebind_rows, rebind_steps, register_steps, require_open, target_pack, update_binding,
}
use startup_ai_manager.Base.{asks, gets, is_blank, lift, pure, raise, raise_if}
use startup_ai_manager.Binding.Meta.{
  all_hex, all_semantic, check_company, is_digest, is_identifier, put_tree_meta, upsert,
}
use startup_ai_manager.Binding.{atomically}
use startup_ai_manager.Binding.Checks.{
  by_revision, check_digest, check_manifest, check_pack, check_rows, counts_from, insert_row,
  linked, links, rows_of, same_identity, verify,
}
use startup_ai_manager.Binding.Archive.{
  archive, ensure_archived, find_manifest, get_archive, same_archive, verify_archive,
}

abbrev digest : String
digest = "0123456789abcdef0123456789abcdef0123456789abcdef0123456789abcdef"

-- The packs that can be loaded are those of one version.
abbrev host_at : ℕ → Host
host_at version = record {
  load_pack = λ name.
      some (record { pack = name; version = version; manifest_sha256 = digest; canonical = "{}" });
  sha256 = λ s. digest;
  is_alnum = λ c. true;
  enabled = true;
  read_only = false;
  scope = none;
  is_empty = λ c. true;
  now = "t";
}

-- A company is registered, bound to a later version, and locked; the last call raises.
abbrev calls : List Call
calls =
    register_company (host_at 1) "c1" "ACME" "generic"
    ∷ bind_company (host_at 2) "c1" "generic"
    ∷ lock_company (host_at 2) "c1"
    ∷ bind_company (host_at 3) "c1" "generic"
    ∷ []

abbrev bound : Binding
bound = record {
  company_id = "c1";
  display_name = "ACME";
  template_pack = "generic";
  pack_version = 2;
  bound_at = "t";
  locked = true;
  pack_digest = some digest;
  digest_source = some Source.verified_manifest;
  binding_revision = 2;
}

bound_found : find_binding "c1" (run_calls calls empty_db).bindings ≡ some bound
unfolding all_hex all_semantic archive asks atomically bind_found bind_pack by_revision
    check_binding check_company check_digest check_history check_manifest check_pack check_rows
    counts_from ensure_archived find_binding find_manifest get_archive get_binding gets insert_new
    insert_row is_blank is_digest is_identifier lift linked links lock_row lock_steps mark_locked
    may_bind project project_row pure put_tree_meta raise raise_if rebind_rows rebind_steps register
    register_steps require_open rows_of run_call run_calls same_archive same_identity target_pack
    update_binding upsert verify verify_archive ◌>>=◌
bound_found = refl

twice_refused :
    (register (host_at 2) "c1" "ACME" "generic" (run_calls calls empty_db)).0
    ≡ err already_registered
unfolding all_hex all_semantic archive asks atomically bind_found bind_pack by_revision
    check_binding check_company check_digest check_history check_manifest check_pack check_rows
    counts_from ensure_archived find_binding find_manifest get_archive get_binding gets insert_new
    insert_row is_blank is_digest is_identifier lift linked links lock_row lock_steps mark_locked
    may_bind project project_row pure put_tree_meta raise raise_if rebind_rows rebind_steps register
    register_steps require_open rows_of run_call run_calls same_archive same_identity target_pack
    update_binding upsert verify verify_archive ◌>>=◌
twice_refused = refl

history_holds_example : check_history (run_calls calls empty_db) bound ≡ ok tt
history_holds_example = history_holds calls "c1" bound bound_found

history_grows_example :
    (rows : List HistoryRow) × ((run_calls calls (run_calls calls empty_db)).history
      ≡ (run_calls calls empty_db).history ++ rows)
history_grows_example = history_grows calls (run_calls calls empty_db)

locked_stays_example :
    find_binding "c1" (run_calls calls (run_calls calls empty_db)).bindings ≡ some bound
locked_stays_example = locked_stays calls (run_calls calls empty_db) "c1" bound bound_found refl
