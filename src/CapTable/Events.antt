-- ===== src/CapTable/Events.antt =====
-- app/memory/company_facts/l2_cap_table.py: the events, the first two loops of the replay, and their
-- errors. A number of shares is an integer, in units of 1e-9 shares, and sums are exact: the rounding
-- of floats is left out.
use startup_ai_manager.Base.{
  String, Bool, true, false, not, ◌&&◌, ◌||◌, Option, none, some, List, [], ◌∷◌, ◌==◌,
  if◌then◌else◌, mem_text, text_le, Result, ok, err,
}
use startup_ai_manager.Base.Int.{ℤ}
use startup_ai_manager.Json.{Value}

-- `EVENT_TYPES`, and any other text.
pub data EventType : Type 0 where
  founding_issuance transfer option_grant option_exercise cancellation : EventType
  new_round split buyback conversion correction : EventType
  unsupported : String → EventType

-- `BASIS`, and any other text.
pub data Basis : Type 0 where
  issued fully_diluted : Basis
  unknown : String → Basis

pub record CapTableEvent : Type 0 where
  pub company_id : String
  pub effective_at : String
  pub event_type : EventType
  pub holder_id : String
  pub instrument : String
  pub shares_delta : ℤ
  pub ownership_basis : Basis
  pub source_refs : List Value
  pub event_id : String
  pub recorded_at : String
  pub shares_after : Option ℤ
  pub price : Option ℤ
  pub currency : Option String
  pub valuation : Option ℤ
  pub transaction_ref : Option String
  pub status : String
  pub supersedes : Option String
  pub from_holder_id : Option String

pub data Refusal : Type 0 where
  unsupported_type bad_basis unverified incomplete foreign_company : Refusal
  duplicate_event shares_after_failed negative_balance : String → Refusal
  inconsistent_totals : Refusal

-- `not x` on a text that may be `None`.
abbrev pub is_set : Option String → Bool
is_set none = false
is_set (some s) = not (s == "")

-- `self.event_type not in EVENT_TYPES`
abbrev pub is_supported : EventType → Bool
is_supported (EventType.unsupported s) = false
is_supported _ = true

abbrev pub is_basis : Basis → Bool
is_basis (Basis.unknown s) = false
is_basis _ = true

abbrev pub is_empty : List Value → Bool
is_empty [] = true
is_empty (_ ∷ _) = false

unfoldable pub validate : CapTableEvent → Result Refusal (Unit {0})
validate e =
    if not (is_supported e.event_type)
    then err Refusal.unsupported_type
    else if not (is_basis e.ownership_basis)
    then err Refusal.bad_basis
    else if not (e.status == "verified")
    then err Refusal.unverified
    else if e.company_id == "" || e.holder_id == "" || is_empty e.source_refs
    then err Refusal.incomplete
    else ok tt

-- The first loop of the replay: the ids that the events supersede, in order.
unfoldable pub scan : String → List String → List CapTableEvent → Result Refusal (List String)
scan company seen [] = ok []
scan company seen (e ∷ es) =
    let rest = scan company (e.event_id ∷ seen) es in
    elim (validate e) [
      | err r ↦ err r
      | ok u ↦
          if not (e.company_id == company)
          then err Refusal.foreign_company
          else if mem_text e.event_id seen
          then err (Refusal.duplicate_event e.event_id)
          else elim rest [
            | err r ↦ err r
            | ok ids ↦
                ok (elim e.supersedes [ none ↦ ids | some s ↦ if s == "" then ids else s ∷ ids ])
          ]
    ]

-- `_event_sort_key`: the order of the tuples of three texts.
abbrev pub key_le : CapTableEvent → CapTableEvent → Bool
key_le a b =
    if not (a.effective_at == b.effective_at)
    then text_le a.effective_at b.effective_at
    else if not (a.recorded_at == b.recorded_at)
    then text_le a.recorded_at b.recorded_at
    else text_le a.event_id b.event_id

unfoldable pub insert_key : CapTableEvent → List CapTableEvent → List CapTableEvent
insert_key e [] = e ∷ []
insert_key e (f ∷ fs) = if key_le e f then e ∷ f ∷ fs else f ∷ insert_key e fs

unfoldable pub sorted_events : List CapTableEvent → List CapTableEvent
sorted_events [] = []
sorted_events (e ∷ es) = insert_key e (sorted_events es)

-- `as_of and event.effective_at > as_of`
abbrev pub is_after : Option String → CapTableEvent → Bool
is_after none e = false
is_after (some t) e = not (t == "") && not (text_le e.effective_at t)

-- The second loop: the events that are neither superseded nor after the date.
unfoldable pub select : List String → Option String → List CapTableEvent → List CapTableEvent
select superseded as_of [] = []
select superseded as_of (e ∷ es) =
    let rest = select superseded as_of es in
    if mem_text e.event_id superseded || is_after as_of e then rest else e ∷ rest
