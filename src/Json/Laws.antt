-- ===== src/Json/Laws.antt =====
-- How the three operations on a JSON object act on its keys.
use wavefront.Base.{◌≡◌, refl, String, none, some, arith, if◌then◌else◌, ◌==◌, eq_iff}
use wavefront.Base.{eq_refl}
use wavefront.Json.{Json, Fields, end, field, find, set, remove}

module _ {F : Type 0} where
  pub find-set :
      (k j : String) (v : Json F) (m : Fields F)
      → find j (set k v m) ≡ (if k == j then some v else find j m)
  unfolding find set
  find-set k j v end = refl
  find-set k j v (field i w m) =
      ground (arith, eq_iff k j, eq_iff i k, eq_iff i j, find-set k j v m)

  pub find-remove :
      (k j : String) (m : Fields F) → find j (remove k m) ≡ (if k == j then none else find j m)
  unfolding find remove
  find-remove k j end = ground arith
  find-remove k j (field i w m) =
      ground (arith, eq_iff k j, eq_iff i k, eq_iff i j, find-remove k j m)

  pub find-set_self : (k : String) (v : Json F) (m : Fields F) → find k (set k v m) ≡ some v
  find-set_self k v m = ground (arith, find-set k k v m, eq_refl k)

  pub set-set : (k : String) (v w : Json F) (m : Fields F) → set k w (set k v m) ≡ set k w m
  unfolding set
  set-set k v w end = ground (arith, eq_refl k)
  set-set k v w (field i u m) = ground (arith, eq_iff i k, eq_refl k, set-set k v w m)
