-- ===== src/Lib.antt =====
-- The core of Startup AI Manager, a host that imports company documents, keeps the facts that are
-- read from them, and migrates its tree of notes under the control of frozen, approved plans.
--
--   Base        shared notation: Boolean tests, lists, texts, integers, and the monad of a fallible
--               call on a state (a call that raises has a value `err`, and its database is what it
--               had written when it raised)
--   Json        the values that json.loads returns
--   Binding     app/facts_tree/company_binding.py, manifest_registry.py, tree_meta.py and their tables in
--               app/db/schema.py
--                 Archive     ManifestRegistry
--                 Meta        put_tree_meta, and identifier of app/memory/paths.py
--                 Checks      _verify, _check_history, _check_manifest
--                 Store       get, register, bind_pack, mark_locked, is_locked
--                 Calls       what every call keeps, for any predicate that the three writes keep
--                 Tables, Chain, Sound, History, Locked   lemmas on these
--   CapTable    app/memory/company_facts/l2_cap_table.py: the replay of a chain of share events
--                 Events      CapTableEvent, its checks, and the selection of events
--                 Shares      the dicts from a holder to its shares
--                 Replay, Totals, Sums, Holders   lemmas on the replay and on its snapshot
--   Contracts   app/contracts/phase0.py, phase2.py and phase3.py
--                 Expect      the checks on one value
--                 Schema      validate_schema, on fuel
--                 Arguments   validate_tool_arguments
--                 Manifest    validate_tool_manifest
--                 Tools       ToolRegistry
--                 Skills      validate_frontmatter, parse_skill_frontmatter, SkillRegistry
--                 Surface     load_phase1_registry, finalize_agent_tool_availability, ToolSearchSurface
--                 Handoff     validate_handoff_artifact, HandoffChain
--                 Claims      new_user_claim, mark_claim_unverified, verify_claim, classify_stalled
--                 the rest    lemmas on these
--   Facts       app/memory/company_facts/l2_consolidation.py, with l2_fact_extractor.py beside it, app/module_tree.py
--               and the tables facts and todos of app/db/schema.py
--                 Candidate       ExtractedFact and its coordinate
--                 Suggestion      deterministic_suggestion, _suggest
--                 Tables          the rows of facts and todos
--                 Todos           _current_fact, _insert_fact, _open_todo
--                 Item            what _unresolved_todo reads from an item
--                 Consolidation   consolidate_candidates, _unresolved_todo
--                 Decision        resolve, dismiss, list_facts, list_verified_facts
--                 Calls           any sequence of these calls
--                 the rest        lemmas on these
--   Jobs        app/parse_jobs.py: class ParseJobManager, its threads and the order of their steps
--                 Run         _run, _progress, _submit_retry, the end of retry, one step at a time
--                 Manager     create, cancel, retry, _observe_failure, and any order of the steps
--                 Single      lemmas on the threads of a job
--   Migration   app/facts_tree/migration_plans.py and its tables in app/db/schema.py
--                 Coverage    normalize_coverage, coverage_blocking_reasons
--                 State       _STATE_EDGES and the sets of states
--                 Codec       what json.dumps, json.loads and hashlib give, as a parameter
--                 Store       class MigrationPlanStore
--                 Events      _events, the checks of _validated_events, the insert trigger
--                 Approval    the arguments of decide and transition, and their checks
--                 Ledger      class MigrationPlanStateLedger
--
-- A table is the list of its rows in insertion order, and a database is a record of tables. An
-- operation takes its arguments as JSON values or texts, and the time of the call as an argument,
-- for the code reads the clock. The loops of the code run over lists. validate_schema alone recurses into
-- the schemas that a schema holds: it takes fuel, and the size of the schema is enough of it.
--
-- A job's thread stands at a point of _run, and a step takes it to the next one: an update of the
-- table, or a section under the lock. An order of steps is a list that names the thread of each step.
-- create makes its row and its event in one step: a call for a job that list shows between the two is
-- left out. The pool runs a submitted job at any later step, and the number of its workers is left
-- out. Times, messages, list, close, the check of a stage's name and the options that retry stores are
-- left out too, for no step reads them.
--
-- A service takes what it calls as a parameter: the digest of a document, the text that json.dumps
-- makes of it, the optional provider of suggestions, the policy hook and the approval verifier are
-- functions that a caller gives. The rows of a table refer to source files that exist; the foreign
-- keys are not checked. SQLite's conversions between numbers and texts are parameters too. The
-- confidence of a fact, a float in the code, is an integer here; so is a number of shares, in units of
-- 1e-9, which is the tolerance of the code's checks. Sums of shares are exact here: the rounding of
-- floats, and with it the failure of the last test of the replay, are left out. A consolidation runs
-- on a connection of its own, which is rolled back when it raises, or on one that the caller gives.
--
-- Not modelled: the text of an error message (an error is a constructor with the values that the
-- message names), the SQL connection itself, the web application, the model providers, and the
-- other parts of the program. Text is compared by code points, as Python does.
pub mod Base
pub mod Binding
pub mod Json
pub mod CapTable
pub mod Contracts
pub mod Facts
pub mod Jobs
pub mod Migration
