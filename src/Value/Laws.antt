-- ===== src/Value/Laws.antt =====
-- Reading a property of an object that was written to.
use node_ddd_boilerplate_typ.Base.{
  Bool-cases, String, ap, arith, eq_iff, eq_refl, if◌then◌else◌, inl, inr, refl, ◌==◌, ◌∙◌, ◌≡◌,
}
use node_ddd_boilerplate_typ.Value.{Fields, Value, end, field, find, omit, put, undefined}

pub find-put :
    (k j : String) (v : Value) (fs : Fields)
    → find j (put k v fs) ≡ (if k == j then v else find j fs)
find-put k j v end = refl
find-put k j v (field i w fs) =
    ground (arith, eq_iff k j, eq_iff i k, eq_iff i j, find-put k j v fs)

pub find-omit :
    (k j : String) (fs : Fields) → find j (omit k fs) ≡ (if k == j then undefined else find j fs)
find-omit k j end = ground arith
find-omit k j (field i w fs) = ground (arith, eq_iff k j, eq_iff i k, eq_iff i j, find-omit k j fs)

pub find-put_same : (k : String) (v : Value) (fs : Fields) → find k (put k v fs) ≡ v
find-put_same k v fs = find-put k k v fs ∙ rw (eq_refl k) refl

pub omit-put : (k : String) (v : Value) (fs : Fields) → omit k (put k v fs) ≡ omit k fs
omit-put k v end = rw (eq_refl k) refl
omit-put k v (field j w fs) = elim (Bool-cases (j == k)) [
  | inl h ↦ rw h (rw h refl)
  | inr h ↦ rw h (rw h (ap (field j w) (omit-put k v fs)))
]
