-- ===== src/CapTable/Replay.antt =====
-- The totals of a replay: what each event contributes to them.
use startup_ai_manager.Base.{
  ◌≡◌, refl, sym, String, false, ◌||◌, arith, Option, none, some, List, [], ◌∷◌, ◌++◌, ◌==◌,
  if◌then◌else◌, ok, Result-cases, Bool-cases, inl, inr, ok-injective, map, subst,
}
use mathlib.Core.List.{append-nil, append_assoc}
use startup_ai_manager.Base.Int.{ℤ, ◌+ℤ◌, ◌-ℤ◌, int_laws}
use startup_ai_manager.CapTable.Events.{
  CapTableEvent, EventType, select, sorted_events, scan, is_set,
}
use startup_ai_manager.CapTable.{
  misses_shares_after, has_negative, Table, empty_table, apply_event, check_table, play, take_from,
  finish, exceeds, differs, Snapshot, replay_cap_table,
}
use startup_ai_manager.CapTable.Shares.{Balances, add, total}

total-add : (h : String) (n : ℤ) (d : Balances) → total (add h n d) ≡ total d +ℤ n
unfolding total add
total-add h n [] = omega int_laws
total-add h n ((k, m) ∷ d) = elim (Bool-cases (k == h)) [
  | inl e ↦ rw e (omega int_laws)
  | inr e ↦ rw (e, total-add h n d) (omega int_laws)
]

-- What an event adds to the issued shares.
abbrev pub issued_change : CapTableEvent → ℤ
issued_change e = elim e.event_type [
  | EventType.option_grant ↦ ℤ.pos 0
  | EventType.transfer ↦ if is_set e.from_holder_id then ℤ.pos 0 else e.shares_delta
  | _ ↦ e.shares_delta
]

-- What an event adds to the option pool.
abbrev pub pool_change : CapTableEvent → ℤ
pool_change e = elim e.event_type [
  | EventType.option_grant ↦ e.shares_delta
  | EventType.option_exercise ↦ ℤ.pos 0 -ℤ e.shares_delta
  | _ ↦ ℤ.pos 0
]

abbrev pub sum_of : (CapTableEvent → ℤ) → List CapTableEvent → ℤ
sum_of f [] = ℤ.pos 0
sum_of f (e ∷ es) = f e +ℤ sum_of f es

total-take_from :
    (from : Option String) (n : ℤ) (d : Balances)
    → total (take_from from n d) ≡ total d -ℤ (if is_set from then n else ℤ.pos 0)
total-take_from none n d = omega int_laws
total-take_from (some h) n d = elim (Bool-cases (h == "")) [
  | inl e ↦ rw e (omega int_laws)
  | inr e ↦ rw (e, total-add h (ℤ.pos 0 -ℤ n) d) (omega int_laws)
]

issued-apply_event :
    (e : CapTableEvent) (t : Table)
    → total (apply_event e t).issued ≡ total t.issued +ℤ issued_change e
unfolding apply_event
issued-apply_event e t = go e.event_type refl
  where
    go :
        (k : EventType)
        → e.event_type ≡ k
        → total (apply_event e t).issued ≡ total t.issued +ℤ issued_change e
    go EventType.option_grant h = rw h (omega int_laws)
    go EventType.transfer h =
        rw
          (
            h,
            total-take_from e.from_holder_id e.shares_delta
                (add e.holder_id e.shares_delta t.issued),
            total-add e.holder_id e.shares_delta t.issued,
          )
          (elim (Bool-cases (is_set e.from_holder_id)) [
            | inl s ↦ rw s (omega int_laws)
            | inr s ↦ rw s (omega int_laws)
          ])
    go _ h = rw h (total-add e.holder_id e.shares_delta t.issued)

diluted-apply_event :
    (e : CapTableEvent) (t : Table)
    → total (apply_event e t).diluted ≡ total t.diluted +ℤ (issued_change e +ℤ pool_change e)
unfolding apply_event
diluted-apply_event e t = go e.event_type refl
  where
    go :
        (k : EventType)
        → e.event_type ≡ k
        → total (apply_event e t).diluted ≡ total t.diluted +ℤ (issued_change e +ℤ pool_change e)
    go EventType.option_exercise h = rw h (omega int_laws)
    go EventType.transfer h =
        rw
          (
            h,
            total-take_from e.from_holder_id e.shares_delta
                (add e.holder_id e.shares_delta t.diluted),
            total-add e.holder_id e.shares_delta t.diluted,
          )
          (elim (Bool-cases (is_set e.from_holder_id)) [
            | inl s ↦ rw s (omega int_laws)
            | inr s ↦ rw s (omega int_laws)
          ])
    go _ h = rw (h, total-add e.holder_id e.shares_delta t.diluted) (omega int_laws)

pool-apply_event :
    (e : CapTableEvent) (t : Table) → (apply_event e t).option_pool ≡ t.option_pool +ℤ pool_change e
unfolding apply_event
pool-apply_event e t = go e.event_type refl
  where
    go :
        (k : EventType)
        → e.event_type ≡ k
        → (apply_event e t).option_pool ≡ t.option_pool +ℤ pool_change e
    go EventType.option_grant h = rw h refl
    go EventType.option_exercise h = rw h (omega int_laws)
    go _ h = rw h (omega int_laws)

trace-apply_event : (e : CapTableEvent) (t : Table) → (apply_event e t).trace ≡ t.trace
unfolding apply_event
trace-apply_event e t = go e.event_type refl
  where
    go : (k : EventType) → e.event_type ≡ k → (apply_event e t).trace ≡ t.trace
    go EventType.option_grant h = rw h refl
    go _ h = rw h refl

-- A table whose balances and whose option pool are not below the tolerance.
pub record IsSigned (t : Table) : Type 0 where
  pub issued : has_negative t.issued ≡ false
  pub diluted : has_negative t.diluted ≡ false
  pub option_pool : exceeds (ℤ.pos 0) t.option_pool ≡ false

-- What the checks of one event leave: the table with a longer trace.
record Checked (e : CapTableEvent) (t u : Table) : Type 0 where
  same : u ≡ record t { trace = t.trace ++ e.event_id ∷ [] }
  signed : IsSigned t

check_table-ok : (e : CapTableEvent) (t u : Table) → check_table e t ≡ ok u → Checked e t u
unfolding check_table
check_table-ok e t u h = elim (Bool-cases (misses_shares_after e t)) [
  | inl bad ↦ absurd (cc (rw bad at h))
  | inr good ↦
      elim (Bool-cases
        (has_negative t.issued || has_negative t.diluted || exceeds (ℤ.pos 0) t.option_pool)) [
          | inl bad ↦ absurd (cc (rw (good, bad) at h))
          | inr signed ↦ record {
            same = sym (ok-injective (rw (good, signed) at h));
            signed = record {
              issued = ground arith;
              diluted = ground arith;
              option_pool = ground arith;
            };
          }
        ]
]

pub check_table-same :
    (e : CapTableEvent) (t u : Table)
    → check_table e t ≡ ok u
    → u ≡ record t { trace = t.trace ++ e.event_id ∷ [] }
check_table-same e t u h = (check_table-ok e t u h).same

-- What a replay that succeeds has done to the table.
pub record Played (es : List CapTableEvent) (t u : Table) : Type 0 where
  pub issued : total u.issued ≡ total t.issued +ℤ sum_of issued_change es
  pub diluted :
      total u.diluted ≡ total t.diluted +ℤ (sum_of issued_change es +ℤ sum_of pool_change es)
  pub option_pool : u.option_pool ≡ t.option_pool +ℤ sum_of pool_change es
  pub trace : u.trace ≡ t.trace ++ map (λ e. e.event_id) es
  pub signed : IsSigned t → IsSigned u

pub play-Played : (es : List CapTableEvent) (t u : Table) → play es t ≡ ok u → Played es t u
unfolding play
play-Played [] t u h = subst (Played [] t) (ok-injective h) (record {
  issued = omega int_laws;
  diluted = omega int_laws;
  option_pool = omega int_laws;
  trace = sym (append-nil t.trace);
  signed = λ s. s;
})
play-Played (e ∷ es) t u h = elim (Result-cases (check_table e (apply_event e t))) [
  | inr (r, is_r) ↦ absurd (cc (rw (is_r, play) at h))
  | inl (v, is_v) ↦
      let c = check_table-ok e (apply_event e t) v is_v in
      let w = subst (λ v. Played es v u) c.same (play-Played es v u (rw (is_v, play) at h)) in
      record {
        issued = rw (w.issued, issued-apply_event e t) (omega int_laws);
        diluted = rw (w.diluted, diluted-apply_event e t) (omega int_laws);
        option_pool = rw (w.option_pool, pool-apply_event e t) (omega int_laws);
        trace = rw (w.trace, trace-apply_event e t) (append_assoc t.trace _ _);
        signed = λ s. w.signed (record {
          issued = c.signed.issued;
          diluted = c.signed.diluted;
          option_pool = c.signed.option_pool;
        });
      }
]

differs_of_eq : (a b : ℤ) → a ≡ b → differs a b ≡ false
differs_of_eq a b h = subst (λ c. differs a c ≡ false) h (ground arith)

-- A replay that plays its events passes the last test.
pub finish-totals :
    (es : List CapTableEvent) (t : Table)
    → Played es empty_table t
    → differs (total t.diluted -ℤ total t.issued -ℤ t.option_pool) (ℤ.pos 0) ≡ false
unfolding total
finish-totals es t p =
    differs_of_eq (total t.diluted -ℤ total t.issued -ℤ t.option_pool) (ℤ.pos 0)
      (rw (p.diluted, p.issued, p.option_pool) (omega int_laws))

-- What a replay that succeeds returns, in terms of the events that it selects.
pub record Replayed (events : List CapTableEvent) (company : String) (as_of : Option String)
    (snap : Snapshot) : Type 0 where
  pub superseded : List String
  pub scanned : scan company [] events ≡ ok superseded
  pub table : Table
  pub played : play (select superseded as_of (sorted_events events)) empty_table ≡ ok table
  pub finished : finish company as_of table ≡ ok snap

pub replay_cap_table-ok :
    (events : List CapTableEvent) (company : String) (as_of : Option String) (snap : Snapshot)
    → replay_cap_table events company as_of ≡ ok snap
    → Replayed events company as_of snap
unfolding replay_cap_table
replay_cap_table-ok events company as_of snap h = elim (Result-cases (scan company [] events)) [
  | inr (r, is_r) ↦ absurd (cc (rw (is_r, replay_cap_table) at h))
  | inl (superseded, is_s) ↦
      elim (Result-cases (play (select superseded as_of (sorted_events events)) empty_table)) [
        | inr (r, is_r) ↦ absurd (cc (rw (is_s, is_r, replay_cap_table) at h))
        | inl (t, is_t) ↦ record {
          superseded = superseded;
          scanned = is_s;
          table = t;
          played = is_t;
          finished = rw (is_s, is_t, replay_cap_table) at h;
        }
      ]
]
