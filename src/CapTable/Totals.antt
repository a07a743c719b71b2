-- ===== src/CapTable/Totals.antt =====
-- The totals of the snapshot that a replay returns.
use startup_ai_manager.Base.{
  ◌≡◌, sym, ◌∙◌, String, false, Option, List, [], ok, ok-injective, map, subst,
}
use startup_ai_manager.Base.Int.{ℤ, ◌+ℤ◌, ◌-ℤ◌, int_laws}
use startup_ai_manager.CapTable.Events.{CapTableEvent, select, sorted_events, scan}
use startup_ai_manager.CapTable.{
  Table, empty_table, finish, differs, Snapshot, replay_cap_table, holding,
}
use startup_ai_manager.CapTable.Shares.{total, holders_of}
use startup_ai_manager.CapTable.Replay.{
  Played, play-Played, finish-totals, Replayed, replay_cap_table-ok, issued_change, pool_change,
  sum_of,
}

-- The one snapshot that `finish` can return for a table.
abbrev pub snapshot_of : String → Option String → Table → Snapshot
snapshot_of company as_of t = record {
  company_id = company;
  as_of = as_of;
  holders = map (holding t) (holders_of t.issued t.diluted);
  total_issued = total t.issued;
  total_fully_diluted = total t.diluted;
  option_pool = t.option_pool;
  rounds = t.rounds;
  event_ids = t.trace;
}

finish-ok :
    (company : String) (as_of : Option String) (t : Table)
    → differs (total t.diluted -ℤ total t.issued -ℤ t.option_pool) (ℤ.pos 0) ≡ false
    → finish company as_of t ≡ ok (snapshot_of company as_of t)
unfolding finish
finish-ok company as_of t h = rw h

-- The snapshot against the events that the replay selects.
pub record AddsUp (es : List CapTableEvent) (snap : Snapshot) : Type 0 where
  pub event_ids : snap.event_ids ≡ map (λ e. e.event_id) es
  pub issued : snap.total_issued ≡ sum_of issued_change es
  pub option_pool : snap.option_pool ≡ sum_of pool_change es
  pub diluted : snap.total_fully_diluted ≡ snap.total_issued +ℤ snap.option_pool

snapshot_of-AddsUp :
    (company : String) (as_of : Option String) (es : List CapTableEvent) (t : Table)
    → Played es empty_table t
    → AddsUp es (snapshot_of company as_of t)
unfolding total
snapshot_of-AddsUp company as_of es t p = record {
  event_ids = p.trace;
  issued = rw p.issued (omega int_laws);
  option_pool = rw p.option_pool (omega int_laws);
  diluted = rw (p.diluted, p.issued, p.option_pool) (omega int_laws);
}

-- A replay returns the snapshot of the table that its events leave.
pub Replayed-snapshot_of :
    {events : List CapTableEvent} {company : String} {as_of : Option String} {snap : Snapshot}
    (r : Replayed events company as_of snap)
    → Played (select r.superseded as_of (sorted_events events)) empty_table r.table
      × (snapshot_of company as_of r.table ≡ snap)
Replayed-snapshot_of {events} {company} {as_of} {snap} r =
    let es = select r.superseded as_of (sorted_events events) in
    let p = play-Played es empty_table r.table r.played in
    (
      p,
      ok-injective
          (sym (finish-ok company as_of r.table (finish-totals es r.table p)) ∙ r.finished),
    )

-- A replay that succeeds counts each selected event once, in order: the issued shares and the option
-- pool are the sums of what the events contribute, and the fully diluted shares are the issued
-- shares and the pool together.
pub replay-AddsUp :
    (events : List CapTableEvent) (company : String) (as_of : Option String) (snap : Snapshot)
    → replay_cap_table events company as_of ≡ ok snap
    → (superseded : List String) × (scan company [] events ≡ ok superseded)
      × AddsUp (select superseded as_of (sorted_events events)) snap
replay-AddsUp events company as_of snap h =
    let r = replay_cap_table-ok events company as_of snap h in
    let (p, same) = Replayed-snapshot_of r in
    let es = select r.superseded as_of (sorted_events events) in
    (
      r.superseded,
      r.scanned,
      subst (AddsUp es) same (snapshot_of-AddsUp company as_of es r.table p),
    )
