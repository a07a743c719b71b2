-- ===== src/Facts/Unresolved.antt =====
-- The unresolved items of a consolidation, and where one that raises ends it.
use startup_ai_manager.Base.{◌≡◌, String, Option, List, ◌∷◌, ◌++◌, ok, err}
use startup_ai_manager.Json.{Fields}
use startup_ai_manager.Facts.Tables.{Db}
use startup_ai_manager.Facts.Todos.{Error, Service}
use startup_ai_manager.Facts.Consolidation.{Outcome, unresolved_todo, unresolved_all}

module _ (service : Service) (company : Option String) (now : String) where
  -- A list of items of which one raises: those before it have been written.
  record Stopped (items : List Fields) (s u : Db) (e : Error) : Type 0 where
    before : List Fields
    bad : Fields
    after : List Fields
    out : Outcome
    split : items ≡ before ++ bad ∷ after
    written : unresolved_all service company before now s ≡ (ok out, u)
    raises : unresolved_todo service company bad now u ≡ (err e, u)
