-- ===== src/Base/Dict.antt =====
-- Go maps as association lists; of two entries with one key the first counts.
use mathlib.Core.Path.{◌≡◌, refl}
use mathlib.Core.Logic.{◌↔◌}
use mathlib.Core.Bool.{Bool, true}
use mathlib.Core.Option.{Option, none, some}
use mathlib.Core.List.{List, [], ◌∷◌, ◌++◌}
use native.Mathlib.Omega.{arith}
use wavefront.Base.Tests.{if◌then◌else◌}

module _ {K V : Type 0} (same : K → K → Bool) where
  -- v, ok := d[k]
  unfoldable pub lookup : K → List (K × V) → Option V
  lookup k [] = none
  lookup k ((j, v) ∷ d) = if same j k then some v else lookup k d

  -- d[k], where the zero value is an empty slice
  unfoldable pub values : K → List (K × List V) → List V
  values k [] = []
  values k ((j, vs) ∷ d) = if same j k then vs else values k d

  -- d[k] = append(d[k], v)
  unfoldable pub append_at : K → V → List (K × List V) → List (K × List V)
  append_at k v [] = (k, v ∷ []) ∷ []
  append_at k v ((j, vs) ∷ d) =
      if same j k then (j, vs ++ v ∷ []) ∷ d else (j, vs) ∷ append_at k v d

  -- d[k] = v
  unfoldable pub put : K → V → List (K × V) → List (K × V)
  put k v [] = (k, v) ∷ []
  put k v ((j, w) ∷ d) = if same j k then (k, v) ∷ d else (j, w) ∷ put k v d

  -- delete(d, k)
  unfoldable pub delete : K → List (K × V) → List (K × V)
  delete k [] = []
  delete k ((j, v) ∷ d) = if same j k then delete k d else (j, v) ∷ delete k d

  module _ (same_iff : (j k : K) → (same j k ≡ true) ↔ (j ≡ k)) where
    pub values-append_at :
        (k j : K) (v : V) (d : List (K × List V))
        → values j (append_at k v d) ≡ (if same k j then values j d ++ v ∷ [] else values j d)
    unfolding values append_at
    values-append_at k j v [] = refl
    values-append_at k j v ((i, vs) ∷ d) =
        ground (arith, same_iff k j, same_iff i k, same_iff i j, values-append_at k j v d)

    pub lookup-put :
        (k j : K) (v : V) (d : List (K × V))
        → lookup j (put k v d) ≡ (if same k j then some v else lookup j d)
    unfolding lookup put
    lookup-put k j v [] = refl
    lookup-put k j v ((i, w) ∷ d) =
        ground (arith, same_iff k j, same_iff i k, same_iff i j, lookup-put k j v d)

    pub lookup-delete :
        (k j : K) (d : List (K × V))
        → lookup j (delete k d) ≡ (if same k j then none else lookup j d)
    unfolding lookup delete
    lookup-delete k j [] = ground arith
    lookup-delete k j ((i, w) ∷ d) =
        ground (arith, same_iff k j, same_iff i k, same_iff i j, lookup-delete k j d)
