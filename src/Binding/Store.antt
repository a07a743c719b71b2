-- ===== src/Binding/Store.antt =====
-- app/facts_tree/company_binding.py: `get`, `register`, `bind_pack`, `mark_locked` and `is_locked` of
-- `CompanyBindingStore`.
use startup_ai_manager.Base.{
  ◌+◌, String, Bool, true, false, not, ◌&&◌, ◌||◌, eqb, Option, none, some, List, [], ◌∷◌, ◌++◌,
  ◌==◌, if◌then◌else◌, is_blank, Result, ok, err, Exec, pure, raise, lift, asks, gets, raise_if,
  ◌>>=◌, ◌>>◌,
}
use startup_ai_manager.Binding.{
  Error, disabled, is_read_only, locked_or_nonempty, unsupported_pack, blank_name, pack_unavailable,
  already_registered, not_registered, Source, Binding, Identity, RecordType, HistoryRow, Db, Pack,
  Host, atomically,
}
use startup_ai_manager.Binding.Archive.{ensure_archived}
use startup_ai_manager.Binding.Meta.{check_company, put_tree_meta}
use startup_ai_manager.Binding.Checks.{verify, check_history, check_manifest, identity_of}

-- `_raw_row`
unfoldable pub find_binding : String → List Binding → Option Binding
find_binding company [] = none
find_binding company (b ∷ bs) = if b.company_id == company then some b else find_binding company bs

-- `UPDATE company_tree_meta SET ... WHERE company_id=?`
unfoldable pub update_binding : String → (Binding → Binding) → List Binding → List Binding
update_binding company f [] = []
update_binding company f (b ∷ bs) =
    let rest = update_binding company f bs in
    if b.company_id == company then f b ∷ rest else b ∷ rest

-- `_pack`
unfoldable pub target_pack : Host → String → Result Error Pack
target_pack host pack =
    if pack == "generic"
    then elim (host.load_pack pack) [ none ↦ err pack_unavailable | some p ↦ ok p ]
    else err unsupported_pack

-- The checks of `get` on the row that was found.
unfoldable pub check_binding : Host → Option Binding → Exec Error Db (Option Binding)
check_binding host none = pure none
check_binding host (some b) = do
  lift (verify host b)
  asks (λ db. check_history db b)
  asks (λ db. check_manifest host db b)
  pure (some b)

unfoldable pub get_binding : Host → String → Exec Error Db (Option Binding)
get_binding host company = do
  lift (check_company host company)
  row ← gets (λ db. find_binding company db.bindings)
  check_binding host row

-- `_project`; `get` has found the row.
unfoldable pub project_row : Host → Option Binding → Exec Error Db (Unit {0})
project_row host none = raise not_registered
project_row host (some b) = put_tree_meta host b

unfoldable pub project : Host → String → Exec Error Db (Unit {0})
project host company = get_binding host company >>= project_row host

-- `require_enabled` and `_require_writable`
unfoldable pub require_open : Host → Exec Error Db (Unit {0})
require_open host = do raise_if (not host.enabled) disabled; raise_if host.read_only is_read_only

abbrev pub new_binding : Host → String → String → Pack → Binding
new_binding host company name p = record {
  company_id = company;
  display_name = name;
  template_pack = p.pack;
  pack_version = p.version;
  bound_at = host.now;
  locked = false;
  pack_digest = some p.manifest_sha256;
  digest_source = some Source.verified_manifest;
  binding_revision = 1;
}

abbrev pub pack_identity : Pack → Identity
pack_identity p = record { pack = p.pack; version = p.version; digest = some p.manifest_sha256 }

abbrev pub first_row : Host → String → Pack → HistoryRow
first_row host company p = record {
  company_id = company;
  revision = 1;
  identity = pack_identity p;
  previous = none;
  event_at = host.now;
  reason = "initial registration";
  record_type = RecordType.initial;
}

unfoldable pub insert_new : Host → String → String → Pack → Exec Error Db (Unit {0})
insert_new host company name p db = (
  ok tt,
  record db {
    bindings = db.bindings ++ new_binding host company name p ∷ [];
    history = db.history ++ first_row host company p ∷ [];
  },
)

abbrev pub is_found : Option Binding → Bool
is_found none = false
is_found (some b) = true

unfoldable pub register_steps : Host → String → String → Pack → Exec Error Db (Unit {0})
register_steps host company name p = do
  found ← gets (λ db. find_binding company db.bindings)
  raise_if (is_found found) already_registered
  _ ← ensure_archived host p "system" "archived with initial registration"
  insert_new host company name p
  project host company

unfoldable pub register : Host → String → String → String → Exec Error Db (Option Binding)
register host company name pack = do
  require_open host
  lift (check_company host company)
  p ← lift (target_pack host pack)
  raise_if (is_blank name) blank_name
  atomically (register_steps host company name p)
  get_binding host company

abbrev pub rebound : Host → Pack → Binding → Binding
rebound host p b = record b {
  template_pack = p.pack;
  pack_version = p.version;
  bound_at = host.now;
  pack_digest = some p.manifest_sha256;
  digest_source = some Source.verified_manifest;
  binding_revision = b.binding_revision + 1;
}

abbrev pub rebind_row : Host → Pack → Binding → HistoryRow
rebind_row host p b = record {
  company_id = b.company_id;
  revision = b.binding_revision + 1;
  identity = pack_identity p;
  previous = some (identity_of b);
  event_at = host.now;
  reason = "controlled rebind of an empty, unlocked company";
  record_type = RecordType.rebind;
}

unfoldable pub rebind_rows : Host → Pack → Binding → Exec Error Db (Unit {0})
rebind_rows host p b db = (
  ok tt,
  record db {
    bindings = update_binding b.company_id (rebound host p) db.bindings;
    history = db.history ++ rebind_row host p b ∷ [];
  },
)

abbrev pub same_target : Pack → Binding → Bool
same_target p b = b.template_pack == p.pack && eqb b.pack_version p.version

-- Whether the row may be bound again: a row that fails its verification only if it is unlocked, the
-- company is empty and the target differs.
unfoldable pub may_bind : Host → Pack → Binding → Result Error (Unit {0}) → Result Error (Unit {0})
may_bind host p b (err e) =
    if b.locked || not (host.is_empty b.company_id) || same_target p b then err e else ok tt
may_bind host p b (ok _) =
    if b.locked || not (host.is_empty b.company_id) then err locked_or_nonempty else ok tt

unfoldable pub rebind_steps : Host → Pack → Binding → Exec Error Db (Unit {0})
rebind_steps host p b = do
  _ ← ensure_archived host p "system" "archived with controlled rebind"
  rebind_rows host p b

unfoldable pub bind_found : Host → Pack → Option Binding → Exec Error Db (Unit {0})
bind_found host p none = raise not_registered
bind_found host p (some b) = do
  lift (may_bind host p b (verify host b))
  if same_target p b then pure tt else rebind_steps host p b
  project host b.company_id

unfoldable pub bind_pack : Host → String → String → Exec Error Db (Option Binding)
bind_pack host company pack = do
  require_open host
  lift (check_company host company)
  p ← lift (target_pack host pack)
  atomically (gets (λ db. find_binding company db.bindings) >>= bind_found host p)
  get_binding host company

abbrev pub locked_binding : Binding → Binding
locked_binding b = record b { locked = true }

unfoldable pub lock_row : String → Exec Error Db (Unit {0})
lock_row company db =
    (ok tt, record db { bindings = update_binding company locked_binding db.bindings })

unfoldable pub lock_steps : Host → String → Exec Error Db (Unit {0})
lock_steps host company = do
  found ← get_binding host company
  raise_if (not (is_found found)) not_registered
  lock_row company
  project host company

unfoldable pub mark_locked : Host → String → Exec Error Db (Unit {0})
mark_locked host company = do
  require_open host
  lift (check_company host company)
  atomically (lock_steps host company)

unfoldable pub is_locked : Host → String → Exec Error Db Bool
is_locked host company =
    get_binding host company >>= λ row. pure (elim row [ none ↦ false | some b ↦ b.locked ])
