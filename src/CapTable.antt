-- ===== src/CapTable.antt =====
-- app/memory/company_facts/l2_cap_table.py: the third loop of the replay of a cap table, and its
-- snapshot. Shares are counted in units of 1e-9, so that the code's tolerance is one unit.
pub mod Events
pub mod Shares
pub mod Replay
pub mod Totals
pub mod Sums
pub mod Holders
mod Examples
use startup_ai_manager.Base.{
  ◌+◌, ltb, String, Bool, true, false, not, ◌&&◌, ◌||◌, Option, none, some, List, [], ◌∷◌, ◌++◌,
  ◌==◌, if◌then◌else◌, mem_text, text_le, sorted_by, any_of, map, Result, ok, err,
}
use startup_ai_manager.Base.Int.{ℤ, pos_part, neg_part, ◌+ℤ◌, ◌-ℤ◌, ltb_ℤ}
use startup_ai_manager.Json.{Value}
use startup_ai_manager.CapTable.Shares.{Balances, balance, add, total, holders_of}
use startup_ai_manager.CapTable.Events.{
  EventType, Basis, CapTableEvent, Refusal, scan, sorted_events, select,
}

-- An entry of `rounds`.
pub record Round : Type 0 where
  pub transaction_ref : Option String
  pub holder_id : String
  pub shares : ℤ
  pub valuation : Option ℤ

-- The local variables of the third loop.
pub record Table : Type 0 where
  pub issued : Balances
  pub diluted : Balances
  pub option_pool : ℤ
  pub rounds : List Round
  pub trace : List String

abbrev pub empty_table : Table
empty_table = record { issued = []; diluted = []; option_pool = ℤ.pos 0; rounds = []; trace = [] }

-- `issued[h] = issued.get(h, 0.0) - delta` for the holder that a transfer names.
abbrev pub take_from : Option String → ℤ → Balances → Balances
take_from none delta d = d
take_from (some h) delta d = if h == "" then d else add h (ℤ.pos 0 -ℤ delta) d

-- The branches on `event.event_type`.
unfoldable pub apply_event : CapTableEvent → Table → Table
apply_event e t =
    let delta = e.shares_delta in
    elim e.event_type [
      | EventType.option_grant ↦ record t {
        diluted = add e.holder_id delta t.diluted;
        option_pool = t.option_pool +ℤ delta;
      }
      | EventType.option_exercise ↦ record t {
        issued = add e.holder_id delta t.issued;
        option_pool = t.option_pool -ℤ delta;
      }
      | EventType.transfer ↦ record t {
        issued = take_from e.from_holder_id delta (add e.holder_id delta t.issued);
        diluted = take_from e.from_holder_id delta (add e.holder_id delta t.diluted);
      }
      | EventType.new_round ↦ record t {
        issued = add e.holder_id delta t.issued;
        diluted = add e.holder_id delta t.diluted;
        rounds =
            t.rounds
            ++ record {
              transaction_ref = e.transaction_ref;
              holder_id = e.holder_id;
              shares = delta;
              valuation = e.valuation;
            }
              ∷ [];
      }
      | _ ↦ record t {
        issued = add e.holder_id delta t.issued;
        diluted = add e.holder_id delta t.diluted;
      }
    ]

-- `a - b > 1e-9`
abbrev pub exceeds : ℤ → ℤ → Bool
exceeds a b = ltb (pos_part b + neg_part a + 1) (pos_part a + neg_part b)

-- `abs(a - b) > 1e-9`
abbrev pub differs : ℤ → ℤ → Bool
differs a b = exceeds a b || exceeds b a

abbrev pub chosen : Basis → Table → Balances
chosen Basis.issued t = t.issued
chosen _ t = t.diluted

abbrev pub misses_shares_after : CapTableEvent → Table → Bool
misses_shares_after e t = elim e.shares_after [
  | none ↦ false
  | some n ↦ differs (balance e.holder_id (chosen e.ownership_basis t)) n
]

-- `any(value < -1e-9 for value in d.values())`
abbrev pub has_negative : Balances → Bool
has_negative d = any_of (λ (h, n). exceeds (ℤ.pos 0) n) d

-- The checks at the end of the loop body.
unfoldable pub check_table : CapTableEvent → Table → Result Refusal Table
check_table e t =
    if misses_shares_after e t
    then err (Refusal.shares_after_failed e.event_id)
    else if has_negative t.issued || has_negative t.diluted || exceeds (ℤ.pos 0) t.option_pool
    then err (Refusal.negative_balance e.event_id)
    else ok (record t { trace = t.trace ++ e.event_id ∷ [] })

unfoldable pub play : List CapTableEvent → Table → Result Refusal Table
play [] t = ok t
play (e ∷ es) t = elim (check_table e (apply_event e t)) [ err r ↦ err r | ok u ↦ play es u ]

-- `x / total * 100 if total else 0.0`, as the exact fraction x / total.
pub data Percent : Type 0 where
  zero : Percent
  of : ℤ → ℤ → Percent

abbrev pub percent : ℤ → ℤ → Percent
percent x total =
    if ltb_ℤ total (ℤ.pos 0) || ltb_ℤ (ℤ.pos 0) total then Percent.of x total else Percent.zero

pub record Holding : Type 0 where
  pub holder : String
  pub issued : ℤ
  pub fully_diluted : ℤ
  pub ownership_issued_pct : Percent
  pub ownership_fully_diluted_pct : Percent

pub record Snapshot : Type 0 where
  pub company_id : String
  pub as_of : Option String
  pub holders : List Holding
  pub total_issued : ℤ
  pub total_fully_diluted : ℤ
  pub option_pool : ℤ
  pub rounds : List Round
  pub event_ids : List String

abbrev pub holding : Table → String → Holding
holding t h = record {
  holder = h;
  issued = balance h t.issued;
  fully_diluted = balance h t.diluted;
  ownership_issued_pct = percent (balance h t.issued) (total t.issued);
  ownership_fully_diluted_pct = percent (balance h t.diluted) (total t.diluted);
}

-- The end of the replay: the totals, and the holdings of all holders.
unfoldable pub finish : String → Option String → Table → Result Refusal Snapshot
finish company as_of t =
    if differs (total t.diluted -ℤ total t.issued -ℤ t.option_pool) (ℤ.pos 0)
    then err Refusal.inconsistent_totals
    else ok (record {
      company_id = company;
      as_of = as_of;
      holders = map (holding t) (holders_of t.issued t.diluted);
      total_issued = total t.issued;
      total_fully_diluted = total t.diluted;
      option_pool = t.option_pool;
      rounds = t.rounds;
      event_ids = t.trace;
    })

unfoldable pub replay_cap_table :
    List CapTableEvent → String → Option String → Result Refusal Snapshot
replay_cap_table events company as_of = elim (scan company [] events) [
  | err r ↦ err r
  | ok superseded ↦ elim (play (select superseded as_of (sorted_events events)) empty_table) [
    | err r ↦ err r
    | ok t ↦ finish company as_of t
  ]
]
