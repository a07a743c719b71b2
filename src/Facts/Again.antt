-- ===== src/Facts/Again.antt =====
-- A consolidation that is run again on the same candidates changes nothing.
use startup_ai_manager.Base.{◌≡◌, refl, String, List, [], ◌∷◌, All}
use startup_ai_manager.Facts.Candidate.{ExtractedFact}
use startup_ai_manager.Facts.Tables.{Db}
use startup_ai_manager.Facts.Todos.{Service}
use startup_ai_manager.Facts.Consolidation.{
  Outcome, nothing, join, consolidate_one, consolidate_all,
}
use startup_ai_manager.Facts.Keys.{HasKeys}
use startup_ai_manager.Facts.Settled.{
  Settled, Settled-kept, consolidate_one-HasKeys, consolidate_one-Settled, Settled-again,
}

module _ (service : Service) where
  consolidate_all-keeps :
      (c : ExtractedFact) (cs : List ExtractedFact) (now : String) (s : Db)
      → HasKeys s
      → Settled service c s
      → Settled service c (consolidate_all service cs now s).1
  unfolding consolidate_all
  consolidate_all-keeps c [] now s k h = h
  consolidate_all-keeps c (d ∷ cs) now s k h =
      consolidate_all-keeps c cs now (consolidate_one service d now s).1
        (consolidate_one-HasKeys service d now s k) (Settled-kept service c d now s k h)

  consolidate_all-Settled :
      (cs : List ExtractedFact) (now : String) (s : Db)
      → HasKeys s
      → HasKeys (consolidate_all service cs now s).1
        × All (λ c. Settled service c (consolidate_all service cs now s).1) cs
  unfolding consolidate_all
  consolidate_all-Settled [] now s k = (k, tt)
  consolidate_all-Settled (c ∷ cs) now s k =
      let k1 = consolidate_one-HasKeys service c now s k in
      let (keys, rest) = consolidate_all-Settled cs now (consolidate_one service c now s).1 k1 in
      (
        keys,
        (
          consolidate_all-keeps c cs now (consolidate_one service c now s).1 k1
              (consolidate_one-Settled service c now s k),
          rest,
        ),
      )

  consolidate_all-again :
      (cs : List ExtractedFact) (later : String) (s : Db)
      → HasKeys s
      → All (λ c. Settled service c s) cs
      → (out : Outcome) × (consolidate_all service cs later s ≡ (out, s))
        × (out.verified_fact_ids ≡ [])
        × (out.todo_ids ≡ [])
  unfolding consolidate_all
  consolidate_all-again [] later s k h = (nothing, refl, refl, refl)
  consolidate_all-again (c ∷ cs) later s k h =
      let (first, e, v, t) = Settled-again service c later s k h.0 in
      let (rest, e', v', t') = consolidate_all-again cs later s k h.1 in
      (join first rest, rw (e, e') refl, rw (v, v') refl, rw (t, t') refl)

  pub consolidate_all-HasKeys :
      (cs : List ExtractedFact) (now : String) (s : Db)
      → HasKeys s
      → HasKeys (consolidate_all service cs now s).1
  consolidate_all-HasKeys cs now s k = (consolidate_all-Settled cs now s k).0

  -- On a database whose todos all have a hand-off key, a consolidation that is run again on the same
  -- candidates, at whatever time, writes nothing: it verifies no fact and opens no todo.
  pub consolidate_all_twice :
      (cs : List ExtractedFact) (now later : String) (s : Db)
      → HasKeys s
      → (out : Outcome) × (consolidate_all service cs later (consolidate_all service cs now s).1
          ≡ (out, (consolidate_all service cs now s).1))
        × (out.verified_fact_ids ≡ [])
        × (out.todo_ids ≡ [])
  consolidate_all_twice cs now later s k =
      let (keys, settled) = consolidate_all-Settled cs now s k in
      consolidate_all-again cs later (consolidate_all service cs now s).1 keys settled
