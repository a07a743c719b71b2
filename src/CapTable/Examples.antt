-- ===== src/CapTable/Examples.antt =====
-- A replay of three events.
use startup_ai_manager.Base.{
  ◌≡◌, refl, String, Bool, true, false, Option, none, some, List, [], ◌∷◌, Result, ok, err, All,
}
use startup_ai_manager.Base
use startup_ai_manager.Base.Int.{ℤ, ◌+ℤ◌, ◌≤ℤ◌}
use startup_ai_manager.Base.Int
use startup_ai_manager.Json.{str}
use startup_ai_manager.CapTable.Events.{
  CapTableEvent, EventType, Basis, Refusal, scan, select, sorted_events,
}
use startup_ai_manager.CapTable.{Snapshot, Holding, Percent, replay_cap_table}
use startup_ai_manager.CapTable
use startup_ai_manager.CapTable.Events
use startup_ai_manager.CapTable.Shares
use startup_ai_manager.CapTable.Totals.{AddsUp, replay-AddsUp}
use startup_ai_manager.CapTable.Sums.{sum_over}
use startup_ai_manager.CapTable.Holders.{IsHeld, holders_add_up, no_negative_holding}

abbrev event : String → EventType → String → ℤ → Option String → CapTableEvent
event id kind holder delta from = record {
  company_id = "acme";
  effective_at = id;
  event_type = kind;
  holder_id = holder;
  instrument = "common";
  shares_delta = delta;
  ownership_basis = Basis.issued;
  source_refs = str "deed.pdf" ∷ [];
  event_id = id;
  recorded_at = "2026";
  shares_after = none;
  price = none;
  currency = none;
  valuation = none;
  transaction_ref = none;
  status = "verified";
  supersedes = none;
  from_holder_id = from;
}

abbrev is_accepted : Result Refusal Snapshot → Bool
is_accepted (ok snap) = true
is_accepted (err r) = false

abbrev history : List CapTableEvent
history =
    event "e3" EventType.transfer "cleo" (ℤ.pos 30) (some "ada")
    ∷ event "e1" EventType.founding_issuance "ada" (ℤ.pos 100) none
    ∷ event "e2" EventType.option_grant "bob" (ℤ.pos 20) none
    ∷ []

abbrev holding : String → ℤ → ℤ → Holding
holding h issued diluted = record {
  holder = h;
  issued = issued;
  fully_diluted = diluted;
  ownership_issued_pct = Percent.of issued (ℤ.pos 100);
  ownership_fully_diluted_pct = Percent.of diluted (ℤ.pos 120);
}

abbrev snapshot : Snapshot
snapshot = record {
  company_id = "acme";
  as_of = none;
  holders =
      holding "ada" (ℤ.pos 70) (ℤ.pos 70)
      ∷ holding "bob" (ℤ.pos 0) (ℤ.pos 20)
      ∷ holding "cleo" (ℤ.pos 30) (ℤ.pos 30)
      ∷ [];
  total_issued = ℤ.pos 100;
  total_fully_diluted = ℤ.pos 120;
  option_pool = ℤ.pos 20;
  rounds = [];
  event_ids = "e1" ∷ "e2" ∷ "e3" ∷ [];
}

replays : replay_cap_table history "acme" none ≡ ok snapshot
unfolding replay_cap_table scan Events.validate select sorted_events Events.insert_key CapTable.play
    CapTable.check_table CapTable.apply_event CapTable.finish Shares.balance Shares.add Shares.total
    Shares.holders_of Base.sorted_by Base.mem_text Int.◌+ℤ◌ Int.◌-ℤ◌
replays = refl

-- A balance of one unit below zero is within the tolerance, and one of two units is not.
within_tolerance :
    is_accepted (
      replay_cap_table
        (event "e1" EventType.founding_issuance "ada" (ℤ.pos 5) none
          ∷ event "e2" EventType.transfer "bob" (ℤ.pos 6) (some "ada")
          ∷ [])
        "acme"
        none)
    ≡ true
unfolding replay_cap_table scan Events.validate select sorted_events Events.insert_key CapTable.play
    CapTable.check_table CapTable.apply_event CapTable.finish Shares.balance Shares.add Shares.total
    Shares.holders_of Base.sorted_by Base.mem_text Int.◌+ℤ◌ Int.◌-ℤ◌
within_tolerance = refl

below_tolerance :
    replay_cap_table
      (event "e1" EventType.founding_issuance "ada" (ℤ.pos 5) none
        ∷ event "e2" EventType.transfer "bob" (ℤ.pos 7) (some "ada")
        ∷ [])
      "acme"
      none
    ≡ err (Refusal.negative_balance "e2")
unfolding replay_cap_table scan Events.validate select sorted_events Events.insert_key CapTable.play
    CapTable.check_table CapTable.apply_event CapTable.finish Shares.balance Shares.add Shares.total
    Shares.holders_of Base.sorted_by Base.mem_text Int.◌+ℤ◌ Int.◌-ℤ◌
below_tolerance = refl

replay-AddsUp_example :
    (superseded : List String) × (scan "acme" [] history ≡ ok superseded)
    × AddsUp (select superseded none (sorted_events history)) snapshot
replay-AddsUp_example = replay-AddsUp history "acme" none snapshot replays

holders_add_up_example :
    (sum_over (λ h. h.issued) snapshot.holders ≡ ℤ.pos 100)
    × (sum_over (λ h. h.fully_diluted) snapshot.holders ≡ ℤ.pos 120)
holders_add_up_example = holders_add_up history "acme" none snapshot replays

no_negative_holding_example : All IsHeld snapshot.holders × (ℤ.negsuc 0 ≤ℤ ℤ.pos 20)
no_negative_holding_example = no_negative_holding history "acme" none snapshot replays
