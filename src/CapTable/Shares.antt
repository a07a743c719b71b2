-- ===== src/CapTable/Shares.antt =====
-- app/memory/company_facts/l2_cap_table.py: the dicts from a holder to its shares.
use startup_ai_manager.Base.{String, List, [], ◌∷◌, ◌==◌, if◌then◌else◌, mem_text, sorted_by}
use startup_ai_manager.Base.Int.{ℤ, ◌+ℤ◌}

abbrev pub Balances : Type 0
Balances = List (String × ℤ)

-- `d.get(h, 0.0)`
unfoldable pub balance : String → Balances → ℤ
balance h [] = ℤ.pos 0
balance h ((k, n) ∷ d) = if k == h then n else balance h d

-- `d[h] = d.get(h, 0.0) + delta`
unfoldable pub add : String → ℤ → Balances → Balances
add h delta [] = (h, ℤ.pos 0 +ℤ delta) ∷ []
add h delta ((k, n) ∷ d) = if k == h then (k, n +ℤ delta) ∷ d else (k, n) ∷ add h delta d

-- `sum(d.values())`
unfoldable pub total : Balances → ℤ
total [] = ℤ.pos 0
total ((k, n) ∷ d) = n +ℤ total d

abbrev pub holder_keys : Balances → List String
holder_keys [] = []
holder_keys ((k, n) ∷ d) = k ∷ holder_keys d

-- `set(issued) | set(diluted)`
abbrev pub union : List String → List String → List String
union [] ys = ys
union (x ∷ xs) ys = let rest = union xs ys in if mem_text x rest then rest else x ∷ rest

-- `sorted(set(issued) | set(diluted))`
unfoldable pub holders_of : Balances → Balances → List String
holders_of issued diluted = sorted_by (λ h. h) (union (holder_keys issued) (holder_keys diluted))
