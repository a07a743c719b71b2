-- ===== src/Binding/Chain.antt =====
-- app/facts_tree/company_binding.py: the chain that `_check_history` asks for.
use startup_ai_manager.Base.{
  ℕ, suc, ◌+◌, String, true, not, eqb, eqb_refl, eqb_iff, leb, Option, none, some, List, [], ◌∷◌,
  ◌++◌, last_or, last_or-append, eq_refl, eq_sym, ok, ◌≡◌, refl, sym, ap, subst, ◌∙◌, arith,
  not-false, and-true,
}
use startup_ai_manager.Base.Checks.{refuse_ok, refuse_passed}
use startup_ai_manager.Binding.{Binding, Identity, HistoryRow, Host, Pack}
use startup_ai_manager.Binding.Checks.{
  same_text, same_identity, identity_of, insert_row, by_revision, counts_from, is_first_type,
  names_none, linked, links, check_rows,
}
use startup_ai_manager.Binding.Store.{
  new_binding, pack_identity, first_row, rebound, rebind_row, locked_binding,
}

same_identity_refl : (i : Identity) → same_identity i i ≡ true
unfolding same_identity
same_identity_refl i = rw (eq_refl i.pack, eqb_refl i.version, same_text_refl i.digest)
  where
    same_text_refl : (d : Option String) → same_text d d ≡ true
    same_text_refl none = refl
    same_text_refl (some s) = eq_refl s

same_identity_sym : (a b : Identity) → same_identity a b ≡ same_identity b a
unfolding same_identity
same_identity_sym a b =
    rw (eq_sym a.pack b.pack, eqb_sym a.version b.version, same_text_sym a.digest b.digest) refl
  where
    same_text_sym : (s t : Option String) → same_text s t ≡ same_text t s
    same_text_sym none none = refl
    same_text_sym none (some t) = refl
    same_text_sym (some s) none = refl
    same_text_sym (some s) (some t) = eq_sym s t

    eqb_sym : (m n : ℕ) → eqb m n ≡ eqb n m
    eqb_sym m n = ground arith

-- What `_check_history` has seen when it returns.
pub record Chained (first : HistoryRow) (rest : List HistoryRow) (b : Binding) : Type 0 where
  pub counted : counts_from 1 (first ∷ rest) ≡ true
  pub begins : is_first_type first.record_type ≡ true
  pub from_none : names_none first.previous ≡ true
  pub chained : links first rest ≡ true
  pub at_revision : eqb (last_or first rest).revision b.binding_revision ≡ true
  pub at_identity : same_identity (last_or first rest).identity (identity_of b) ≡ true

pub check_rows_ok :
    (first : HistoryRow) (rest : List HistoryRow) (b : Binding)
    → check_rows (first ∷ rest) b ≡ ok tt
    → Chained first rest b
unfolding check_rows
check_rows_ok first rest b h0 =
    let (h, h1) = refuse_ok (not (counts_from 1 (first ∷ rest))) _ _ h0 in
    let (i, h2) = refuse_ok (not (is_first_type first.record_type)) _ _ h1 in
    let (j, h3) = refuse_ok (not (names_none first.previous)) _ _ h2 in
    let (k, h4) = refuse_ok (not (links first rest)) _ _ h3 in
    let (l, h5) = refuse_ok (not (eqb (last_or first rest).revision b.binding_revision)) _ _ h4 in
    record {
      counted = not-false _ h;
      begins = not-false _ i;
      from_none = not-false _ j;
      chained = not-false _ k;
      at_revision = not-false _ l;
      at_identity = not-false _ (refuse_passed _ _ h5);
    }

pub Chained-check_rows :
    (first : HistoryRow) (rest : List HistoryRow) (b : Binding)
    → Chained first rest b
    → check_rows (first ∷ rest) b ≡ ok tt
unfolding check_rows
Chained-check_rows first rest b c =
    rw (c.counted, c.begins, c.from_none, c.chained, c.at_revision, c.at_identity)

pub first_row-check_rows :
    (host : Host) (company name : String) (p : Pack)
    → check_rows (first_row host company p ∷ []) (new_binding host company name p) ≡ ok tt
unfolding counts_from links
first_row-check_rows host company name p = Chained-check_rows _ [] _ (record {
  counted = refl;
  begins = refl;
  from_none = refl;
  chained = refl;
  at_revision = refl;
  at_identity = same_identity_refl (pack_identity p);
})

counts_from-append :
    (n : ℕ) (first : HistoryRow) (rest : List HistoryRow) (r : HistoryRow)
    → counts_from n (first ∷ rest) ≡ true
    → r.revision ≡ suc (last_or first rest).revision
    → counts_from n (first ∷ rest ++ r ∷ []) ≡ true
unfolding counts_from
counts_from-append n first [] r h e = ground (arith, h, e)
counts_from-append n first (s ∷ rest) r h e =
    let (p, q) = and-true (eqb first.revision n) _ h in
    rw (p, counts_from-append (suc n) s rest r q e)

links-append :
    (first : HistoryRow) (rest : List HistoryRow) (r : HistoryRow)
    → links first rest ≡ true
    → linked (last_or first rest) r ≡ true
    → links first (rest ++ r ∷ []) ≡ true
unfolding links
links-append first [] r h e = rw (e)
links-append first (s ∷ rest) r h e =
    let (p, q) = and-true (linked first s) _ h in rw (p, links-append s rest r q e)

-- A controlled rebind prolongs the chain.
pub rebind_row-check_rows :
    (host : Host) (p : Pack) (b : Binding) (rows : List HistoryRow)
    → check_rows rows b ≡ ok tt
    → check_rows (rows ++ rebind_row host p b ∷ []) (rebound host p b) ≡ ok tt
unfolding check_rows linked
rebind_row-check_rows host p b (first ∷ rest) h =
    let c = check_rows_ok first rest b h in
    let at_end = (eqb_iff (last_or first rest).revision b.binding_revision).0 c.at_revision in
    let e = last_or-append first rest (rebind_row host p b) in
    Chained-check_rows first (rest ++ rebind_row host p b ∷ []) (rebound host p b) (record {
      counted = counts_from-append 1 first rest _ c.counted (omega (arith, at_end));
      begins = c.begins;
      from_none = c.from_none;
      chained =
          links-append first rest _ c.chained
            (same_identity_sym (identity_of b) (last_or first rest).identity ∙ c.at_identity);
      at_revision = rw (e, eqb_refl (b.binding_revision + 1));
      at_identity = rw (e, same_identity_refl (pack_identity p));
    })
rebind_row-check_rows host p b [] h = absurd (cc h)

pub locked-check_rows :
    (b : Binding) (rows : List HistoryRow) → check_rows rows (locked_binding b) ≡ check_rows rows b
unfolding check_rows
locked-check_rows b [] = refl
locked-check_rows b (first ∷ rest) = refl

-- Rows that are counted stand in order already.
pub by_revision-counted :
    (n : ℕ) (rows : List HistoryRow) → counts_from n rows ≡ true → by_revision rows ≡ rows
unfolding by_revision insert_row counts_from
by_revision-counted n [] h = refl
by_revision-counted n (r ∷ []) h = refl
by_revision-counted n (r ∷ s ∷ rest) h =
    let (p, q) = and-true (eqb r.revision n) _ h in
    let (p', _) = and-true (eqb s.revision (suc n)) _ q in
    let e = by_revision-counted (suc n) (s ∷ rest) q in
    let le = in_order r.revision s.revision n p p' in ap (insert_row r) e ∙ rw (le)
  where
    in_order : (a b n : ℕ) → eqb a n ≡ true → eqb b (suc n) ≡ true → leb a b ≡ true
    in_order a b n p q = ground arith

pub check_rows-by_revision :
    (rows : List HistoryRow) (b : Binding)
    → check_rows rows b ≡ ok tt
    → check_rows (by_revision rows) b ≡ ok tt
unfolding check_rows
check_rows-by_revision [] b h = absurd (cc h)
check_rows-by_revision (first ∷ rest) b h =
    let e = by_revision-counted 1 (first ∷ rest) (check_rows_ok first rest b h).counted in
    subst (λ rows. check_rows rows b ≡ ok tt) (sym e) h
