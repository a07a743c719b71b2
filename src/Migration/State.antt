-- ===== src/Migration/State.antt =====
-- app/facts_tree/migration_plans.py: the state machine of a plan, `_STATE_EDGES` and the sets of
-- states beside it. A state is a text: one of the eleven that the schema admits, or another.
use startup_ai_manager.Base.{String, Bool, true, false}

pub data State : Type 0 where
  draft validated awaiting_user_approval approved rejected blocked expired : State
  executing applied failed rolled_back : State
  other : String → State

-- `target in _STATE_EDGES.get(current, set())`
abbrev pub edge : State → State → Bool
edge State.draft State.validated = true
edge State.draft State.rejected = true
edge State.draft State.expired = true
edge State.validated State.awaiting_user_approval = true
edge State.validated State.blocked = true
edge State.validated State.rejected = true
edge State.validated State.expired = true
edge State.awaiting_user_approval State.approved = true
edge State.awaiting_user_approval State.rejected = true
edge State.awaiting_user_approval State.expired = true
edge State.approved State.expired = true
edge State.approved State.executing = true
edge State.failed State.validated = true
edge State.failed State.expired = true
edge State.executing State.applied = true
edge State.executing State.failed = true
edge State.applied State.rolled_back = true
edge _ _ = false

-- `state in _TERMINAL_STATES`
abbrev pub is_terminal : State → Bool
is_terminal State.rejected = true
is_terminal State.expired = true
is_terminal State.rolled_back = true
is_terminal _ = false

-- `state in _EXECUTOR_STATES`
abbrev pub is_executor : State → Bool
is_executor State.executing = true
is_executor State.applied = true
is_executor State.failed = true
is_executor State.rolled_back = true
is_executor _ = false

-- `state in _TRANSITION_STATES`
abbrev pub is_transition : State → Bool
is_transition State.validated = true
is_transition State.awaiting_user_approval = true
is_transition State.blocked = true
is_transition State.expired = true
is_transition _ = false

-- `state in {"approved", "rejected"}`
abbrev pub is_decision : State → Bool
is_decision State.approved = true
is_decision State.rejected = true
is_decision _ = false

-- `state in {"blocked", "expired"}`
abbrev pub is_closing : State → Bool
is_closing State.blocked = true
is_closing State.expired = true
is_closing _ = false

abbrev pub is_draft : State → Bool
is_draft State.draft = true
is_draft _ = false

abbrev pub is_validated : State → Bool
is_validated State.validated = true
is_validated _ = false

-- The schema's CHECK on `event_type`.
abbrev pub is_known : State → Bool
is_known (State.other _) = false
is_known _ = true
