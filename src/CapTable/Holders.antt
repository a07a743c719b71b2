-- ===== src/CapTable/Holders.antt =====
-- The holdings of a snapshot: every holder stands there once, so that the holdings add up to the
-- totals.
use startup_ai_manager.Base.{
  ◌≡◌, refl, sym, ◌∙◌, arith, String, Bool, true, false, ◌||◌, ◌==◌, eq_iff, Option, none, some,
  List, [], ◌∷◌, ok, Result-cases, Bool-cases, inl, inr, ok-injective, map, subst, mem_text,
  sorted_by, All,
}
use startup_ai_manager.Base.Int.{ℤ, ◌-ℤ◌, ◌≤ℤ◌}
use startup_ai_manager.CapTable.Events.{CapTableEvent, EventType, select, sorted_events}
use startup_ai_manager.CapTable.{
  Table, empty_table, check_table, apply_event, take_from, play, Snapshot, Holding,
  replay_cap_table, holding, has_negative, exceeds,
}
use startup_ai_manager.CapTable.Shares.{
  Balances, balance, add, total, holder_keys, union, holders_of,
}
use startup_ai_manager.CapTable.Replay.{check_table-same, IsSigned, replay_cap_table-ok}
use startup_ai_manager.CapTable.Totals.{Replayed-snapshot_of}
use startup_ai_manager.CapTable.Sums.{
  sum_over, IsDistinct, sum_over-sorted_by, mem_text-union, union-IsDistinct, sum_over-balance,
}

mem_text-add :
    (x h : String) (n : ℤ) (d : Balances)
    → mem_text x (holder_keys (add h n d)) ≡ (x == h || mem_text x (holder_keys d))
unfolding mem_text add
mem_text-add x h n [] = refl
mem_text-add x h n ((k, m) ∷ d) =
    ground (arith, mem_text-add x h n d, eq_iff k h, eq_iff x k, eq_iff x h)

no_text : (h : String) → mem_text h [] ≡ false
unfolding mem_text
no_text h = refl

add-IsDistinct :
    (h : String) (n : ℤ) (d : Balances)
    → IsDistinct (holder_keys d)
    → IsDistinct (holder_keys (add h n d))
unfolding add
add-IsDistinct h n [] k = (no_text h, tt)
add-IsDistinct h n ((k, m) ∷ d) q = elim (Bool-cases (k == h)) [
  | inl e ↦ rw e q
  | inr e ↦ rw e (mem_text-add k h n d ∙ rw (e, q.0) refl, add-IsDistinct h n d q.1)
]

record IsKeyed (t : Table) : Type 0 where
  issued : IsDistinct (holder_keys t.issued)
  diluted : IsDistinct (holder_keys t.diluted)

take_from-IsDistinct :
    (from : Option String) (n : ℤ) (d : Balances)
    → IsDistinct (holder_keys d)
    → IsDistinct (holder_keys (take_from from n d))
take_from-IsDistinct none n d k = k
take_from-IsDistinct (some h) n d k = elim (Bool-cases (h == "")) [
  | inl e ↦ rw e k
  | inr e ↦ rw e (add-IsDistinct h (ℤ.pos 0 -ℤ n) d k)
]

apply_event-IsKeyed : (e : CapTableEvent) (t : Table) → IsKeyed t → IsKeyed (apply_event e t)
unfolding apply_event
apply_event-IsKeyed e t k = go e.event_type refl
  where
    more_issued : IsDistinct (holder_keys (add e.holder_id e.shares_delta t.issued))
    more_issued = add-IsDistinct e.holder_id e.shares_delta t.issued k.issued

    more_diluted : IsDistinct (holder_keys (add e.holder_id e.shares_delta t.diluted))
    more_diluted = add-IsDistinct e.holder_id e.shares_delta t.diluted k.diluted

    go : (kind : EventType) → e.event_type ≡ kind → IsKeyed (apply_event e t)
    go EventType.option_grant h = rw h (record { issued = k.issued; diluted = more_diluted })
    go EventType.option_exercise h = rw h (record { issued = more_issued; diluted = k.diluted })
    go EventType.transfer h = rw h (record {
      issued =
          take_from-IsDistinct e.from_holder_id e.shares_delta
            (add e.holder_id e.shares_delta t.issued) more_issued;
      diluted =
          take_from-IsDistinct e.from_holder_id e.shares_delta
            (add e.holder_id e.shares_delta t.diluted) more_diluted;
    })
    go _ h = rw h (record { issued = more_issued; diluted = more_diluted })

play-IsKeyed : (es : List CapTableEvent) (t u : Table) → play es t ≡ ok u → IsKeyed t → IsKeyed u
unfolding play
play-IsKeyed [] t u h k = subst IsKeyed (ok-injective h) k
play-IsKeyed (e ∷ es) t u h k = elim (Result-cases (check_table e (apply_event e t))) [
  | inr (r, is_r) ↦ absurd (cc (rw (is_r, play) at h))
  | inl (v, is_v) ↦
      let made = apply_event-IsKeyed e t k in
      play-IsKeyed es v u (rw (is_v, play) at h) (
        subst IsKeyed (sym (check_table-same e (apply_event e t) v is_v))
          (record { issued = made.issued; diluted = made.diluted }))
]

-- The holdings of a table add up to its totals.
holdings-total :
    (t : Table)
    → IsKeyed t
    → (sum_over (λ h. h.issued) (map (holding t) (holders_of t.issued t.diluted)) ≡ total t.issued)
      × (sum_over (λ h. h.fully_diluted) (map (holding t) (holders_of t.issued t.diluted))
          ≡ total t.diluted)
unfolding holders_of
holdings-total t k =
    let hs = union (holder_keys t.issued) (holder_keys t.diluted) in
    let once = union-IsDistinct (holder_keys t.issued) (holder_keys t.diluted) k.diluted in
    (
      mapped (λ h. balance h t.issued) (λ h. h.issued) (λ h. refl) (sorted_by (λ h. h) hs)
          ∙ (sum_over-sorted_by (λ h. balance h t.issued) hs
              ∙ sum_over-balance t.issued hs k.issued once (λ h m.
                mem_text-union h (holder_keys t.issued) (holder_keys t.diluted) ∙ rw m refl)),
      mapped (λ h. balance h t.diluted) (λ h. h.fully_diluted) (λ h. refl) (sorted_by (λ h. h) hs)
          ∙ (sum_over-sorted_by (λ h. balance h t.diluted) hs
              ∙ sum_over-balance t.diluted hs k.diluted once (λ h m.
                mem_text-union h (holder_keys t.issued) (holder_keys t.diluted)
                ∙ or_true (mem_text h (holder_keys t.issued)) (mem_text h (holder_keys t.diluted))
                    m)),
    )
  where
    mapped :
        (f : String → ℤ) (g : Holding → ℤ)
        → ((h : String) → g (holding t h) ≡ f h)
        → (hs : List String) → sum_over g (map (holding t) hs) ≡ sum_over f hs
    mapped f g e [] = refl
    mapped f g e (h ∷ hs) = rw (e h, mapped f g e hs) refl

    or_true : (a b : Bool) → b ≡ true → (a || b) ≡ true
    or_true a b h = ground arith

-- In the snapshot of a replay every holder stands once, and the holdings add up to the totals, for
-- the issued and for the fully diluted shares.
pub holders_add_up :
    (events : List CapTableEvent) (company : String) (as_of : Option String) (snap : Snapshot)
    → replay_cap_table events company as_of ≡ ok snap
    → (sum_over (λ h. h.issued) snap.holders ≡ snap.total_issued)
      × (sum_over (λ h. h.fully_diluted) snap.holders ≡ snap.total_fully_diluted)
holders_add_up events company as_of snap h =
    let r = replay_cap_table-ok events company as_of snap h in
    let keyed =
      play-IsKeyed (select r.superseded as_of (sorted_events events)) empty_table r.table r.played
        (record { issued = tt; diluted = tt }) in
    subst
      (λ s.
        (sum_over (λ h. h.issued) s.holders ≡ s.total_issued)
        × (sum_over (λ h. h.fully_diluted) s.holders ≡ s.total_fully_diluted))
      (Replayed-snapshot_of r).1 (holdings-total r.table keyed)

-- A holding is not below the tolerance, which is -1e-9.
abbrev pub IsHeld : Holding → Type 0
IsHeld h = (ℤ.negsuc 0 ≤ℤ h.issued) × (ℤ.negsuc 0 ≤ℤ h.fully_diluted)

balance-at_least : (h : String) (d : Balances) → has_negative d ≡ false → ℤ.negsuc 0 ≤ℤ balance h d
unfolding balance
balance-at_least h [] n = omega arith
balance-at_least h ((k, m) ∷ d) n = ground (arith, balance-at_least h d)

-- In the snapshot of a replay that succeeds no holding is below the tolerance of the checks, -1e-9
-- shares, and neither is the option pool.
pub no_negative_holding :
    (events : List CapTableEvent) (company : String) (as_of : Option String) (snap : Snapshot)
    → replay_cap_table events company as_of ≡ ok snap
    → All IsHeld snap.holders × (ℤ.negsuc 0 ≤ℤ snap.option_pool)
no_negative_holding events company as_of snap h =
    let r = replay_cap_table-ok events company as_of snap h in
    let (p, same) = Replayed-snapshot_of r in
    let s = p.signed (record { issued = refl; diluted = refl; option_pool = refl }) in
    subst (λ s. All IsHeld s.holders × (ℤ.negsuc 0 ≤ℤ s.option_pool)) same
      (
        held r.table s (holders_of r.table.issued r.table.diluted),
        pool r.table.option_pool s.option_pool,
      )
  where
    held : (t : Table) → IsSigned t → (hs : List String) → All IsHeld (map (holding t) hs)
    held t s [] = tt
    held t s (h ∷ hs) = (
      (balance-at_least h t.issued s.issued, balance-at_least h t.diluted s.diluted),
      held t s hs,
    )

    pool : (n : ℤ) → exceeds (ℤ.pos 0) n ≡ false → ℤ.negsuc 0 ≤ℤ n
    pool n h = ground arith
