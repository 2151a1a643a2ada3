-- ===== src/Json/Laws.antt =====
-- Laws of the map operations.
use kubegate.Prelude.{
  String, Bool, true, false, Option, none, some, ◌==◌, ◌≡◌, refl, ◌≢◌, arith, eq_iff, eq_refl,
  if◌then◌else◌, Bool-cases, inl, inr,
}
use kubegate.Json.{Json, Fields, end, field, lookup, delete, put}

pub lookup-delete :
    (k j : String) (fs : Fields) → lookup j (delete k fs) ≡ (if k == j then none else lookup j fs)
unfolding lookup delete
lookup-delete k j end = ground arith
lookup-delete k j (field i v fs) =
    ground (arith, lookup-delete k j fs, eq_iff i k, eq_iff i j, eq_iff k j)

pub lookup-put :
    (k j : String) (v : Json) (fs : Fields)
    → lookup j (put k v fs) ≡ (if k == j then some v else lookup j fs)
unfolding lookup put
lookup-put k j v end = refl
lookup-put k j v (field i w fs) =
    ground (arith, lookup-put k j v fs, eq_iff i k, eq_iff i j, eq_iff k j)

pub delete_absent : (k : String) (fs : Fields) → lookup k fs ≡ none → delete k fs ≡ fs
unfolding lookup delete
delete_absent k end h = refl
delete_absent k (field i v fs) h = elim (Bool-cases (i == k)) [
  | inl e ↦ cc (rw e at h)
  | inr e ↦ rw (e, delete_absent k fs (rw e at h))
]

-- Assigning what is there changes nothing.
pub put_same : (k : String) (v : Json) (fs : Fields) → lookup k fs ≡ some v → put k v fs ≡ fs
unfolding lookup put
put_same k v end h = cc
put_same k v (field i w fs) h = elim (Bool-cases (i == k)) [
  | inl e ↦ ground (arith, h, e)
  | inr e ↦ rw (e, put_same k v fs (rw e at h))
]

pub ruleset map_laws = (lookup-delete, lookup-put, eq_refl)
