-- ===== src/Headers.antt =====
-- net/http's Header as the program uses it: an association list with canonical keys.
pub mod Copy
use wavefront.Base.{String, Bool, List, [], ◌∷◌, if◌then◌else◌, ◌==◌}
use wavefront.Base.Dict.{values, put, append_at}

abbrev pub Header : Type 0
Header = List (String × List String)

abbrev pub first_value : List String → String
first_value [] = ""
first_value (v ∷ vs) = v

-- h.Get(k), of a canonical key
unfoldable pub get : String → Header → String
get k h = first_value (values ◌==◌ k h)

-- h.Set(k, v), of a canonical key
unfoldable pub set : String → String → Header → Header
set k v h = put ◌==◌ k (v ∷ []) h

-- The inner loop of a copy: dst.Add(k, v) for every value.
unfoldable pub add_all : String → List String → Header → Header
add_all k [] dst = dst
add_all k (v ∷ vs) dst = add_all k vs (append_at ◌==◌ k v dst)

-- A loop `for k, vs := range src` that copies the entries whose key passes a test.
unfoldable pub copy_where : (String → Bool) → Header → Header → Header
copy_where p [] dst = dst
copy_where p ((k, vs) ∷ src) dst = copy_where p src (if p k then add_all k vs dst else dst)
