-- ===== src/Binding/Meta.antt =====
-- app/facts_tree/tree_meta.py: `put_tree_meta`, on a payload whose fields have the types of the table;
-- and app/memory/paths.py: `identifier`.
use Prim.Native.Char.{code}
use startup_ai_manager.Base.{
  ℕ, suc, String, Bool, true, false, not, ◌&&◌, ◌||◌, eqb, leb, ltb, Option, none, some, List, [],
  ◌∷◌, ◌==◌, if◌then◌else◌, is_blank, Result, ok, err, Exec, raise_if, lift, ◌>>◌,
}
use startup_ai_manager.Binding.{
  Error, disabled, bad_identifier, out_of_scope, blank_meta, bad_version, bad_digest, bad_source,
  bad_revision, Binding, Projection, Db, Host,
}

abbrev text_length : String → ℕ
text_length String.[] = 0
text_length (String.◌∷◌ c s) = suc (text_length s)

unfoldable pub all_semantic : Host → String → Bool
all_semantic host String.[] = true
all_semantic host (String.◌∷◌ c s) =
    (host.is_alnum (code c) || eqb (code c) 45) && all_semantic host s

unfoldable pub is_identifier : Host → String → Bool
is_identifier host s = not (s == "") && leb (text_length s) 128 && all_semantic host s

-- `_company`: an identifier, and the injected one if there is one
unfoldable pub check_company : Host → String → Result Error (Unit {0})
check_company host company =
    if is_identifier host company
    then elim host.scope [
      | none ↦ ok tt
      | some scope ↦ if company == scope then ok tt else err out_of_scope
    ]
    else err bad_identifier

unfoldable pub all_hex : String → Bool
all_hex String.[] = true
all_hex (String.◌∷◌ c s) =
    ((leb 48 (code c) && leb (code c) 57) || (leb 97 (code c) && leb (code c) 102)) && all_hex s

unfoldable pub is_digest : Option String → Bool
is_digest none = false
is_digest (some d) = eqb (text_length d) 64 && all_hex d

abbrev is_missing {ℓ} : {A : Type ℓ} → Option A → Bool
is_missing none = true
is_missing (some a) = false

-- `INSERT ... ON CONFLICT(company_id) DO UPDATE`
unfoldable pub upsert : Projection → List Projection → List Projection
upsert p [] = p ∷ []
upsert p (q ∷ qs) = if q.company_id == p.company_id then p ∷ qs else q ∷ upsert p qs

unfoldable pub put_tree_meta : Host → Binding → Exec Error Db (Unit {0})
put_tree_meta host b = do
  raise_if (not host.enabled) disabled
  lift (check_company host b.company_id)
  raise_if (is_blank b.display_name || is_blank b.template_pack || is_blank b.bound_at) blank_meta
  raise_if (not (is_identifier host b.template_pack)) bad_identifier
  raise_if (ltb b.pack_version 1) bad_version
  raise_if (not (is_digest b.pack_digest)) bad_digest
  raise_if (is_missing b.digest_source) bad_source
  raise_if (ltb b.binding_revision 1) bad_revision
  λ db. (
    ok tt,
    record db {
      projections = upsert (record { company_id = b.company_id; content = b }) db.projections;
    },
  )
