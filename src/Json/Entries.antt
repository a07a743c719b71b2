-- ===== src/Json/Entries.antt =====
-- What a dict reads back after `d[key] = v`.
use startup_ai_manager.Json.{Value, Fields, end, field, get, get_value, put}
use startup_ai_manager.Base.{
  String, false, some, ◌==◌, eq_iff, eq_refl, Bool-cases, inl, inr, ◌≡◌, sym, subst,
}

pub get-put : (k : String) (v : Value) (d : Fields) → get k (put k v d) ≡ some v
unfolding get put
get-put k v end = rw (eq_refl k)
get-put k v (field j w rest) = elim (Bool-cases (j == k)) [
  | inl e ↦ rw (e, get, e)
  | inr e ↦ rw (e, get, e, get-put k v rest)
]

pub get-put_other :
    (k j : String) (v : Value) (d : Fields) → (j == k) ≡ false → get k (put j v d) ≡ get k d
unfolding get put
get-put_other k j v end h = rw (h)
get-put_other k j v (field i w rest) h = elim (Bool-cases (i == j)) [
  | inl e ↦
      let p = (eq_iff i j).0 e in let q = subst (λ x. (x == k) ≡ false) (sym p) h in rw (e, get, q)
  | inr e ↦ rw (e, get, get-put_other k j v rest h)
]

pub get_value-put : (k : String) (v : Value) (d : Fields) → get_value k (put k v d) ≡ v
unfolding get_value
get_value-put k v d = rw (get-put k v d, get_value)

pub get_value-put_other :
    (k j : String) (v : Value) (d : Fields)
    → (j == k) ≡ false
    → get_value k (put j v d) ≡ get_value k d
unfolding get_value
get_value-put_other k j v d h = rw (get-put_other k j v d h, get_value)
