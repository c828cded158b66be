-- ===== src/Json.antt =====
-- The JSON value trees on which the transforms work (the `any` values of internal/transform):
-- what encoding/json decodes into, and the integers that a `default` stanza injects.
pub mod Laws
use wavefront.Base.{ℕ, ℤ, String, Bool, List, Option, none, some, if◌then◌else◌, ◌==◌}

-- `num` is a float64, as encoding/json decodes every number. `int` is an int, int64 or uint64 of
-- the YAML loader, which only a `default` stanza puts into a tree.
mutual
  pub data Json (F : Type 0) : Type 0 where
    null : Json F
    bool : Bool → Json F
    num : F → Json F
    int : ℤ → Json F
    str : String → Json F
    arr : Items F → Json F
    obj : Fields F → Json F

  pub data Items (F : Type 0) : Type 0 where
    nil : Items F
    cons : Json F → Items F → Items F

  pub data Fields (F : Type 0) : Type 0 where
    end : Fields F
    field : String → Json F → Fields F → Fields F

-- A Go map with text keys, in some order; of two entries with one key the first counts.
module _ {F : Type 0} where
  -- v, ok := m[k]
  unfoldable pub find : String → Fields F → Option (Json F)
  find k end = none
  find k (field j v m) = if j == k then some v else find k m

  -- m[k] = v
  unfoldable pub set : String → Json F → Fields F → Fields F
  set k v end = field k v end
  set k v (field j w m) = if j == k then field k v m else field j w (set k v m)

  -- delete(m, k)
  unfoldable pub remove : String → Fields F → Fields F
  remove k end = end
  remove k (field j w m) = let rest = remove k m in if j == k then rest else field j w rest

abbrev pub Bytes : Type 0
Bytes = List ℕ

-- What the program uses of strconv's float64 and of the text of JSON: the type of floats and the
-- functions on it, `json.Unmarshal` into a tree and `json.Marshal` of one.
pub record JsonCodec : Type 1 where
  pub Float : Type 0
  pub format_float : Float → String
  pub parse_float : String → Option Float
  pub unmarshal : Bytes → Option (Json Float)
  pub marshal : Json Float → Option Bytes
