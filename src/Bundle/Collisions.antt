-- ===== src/Bundle/Collisions.antt =====
-- internal/bundle/bundle.go, checkPackageCollisions: no two layers own files of one package.
pub mod Owners
pub mod Sole
mod Entries
use wavefront.Base.{
  ◌+◌, String, Bool, not, ◌&&◌, List, [], ◌∷◌, ◌++◌, Option, none, some, Result, ok, err, ◌>>=◌,
  ◌>>◌, if◌then◌else◌, ◌==◌, ltb, eqb, any, length,
}
use wavefront.Base.Dict.{lookup, put, values}
use wavefront.Base.Text.Sort.{sort_strings}
use wavefront.Bundle.Failure.{LoadError, package_collision}
use wavefront.Bundle.Merge.{FileProto, encoded_or}

abbrev pub has : String → List String → Bool
has s xs = any (λ x. x == s) xs

-- set[s] = struct{}{}, where a set is a list
unfoldable pub set_add : String → List String → List String
set_add s xs = if has s xs then xs else xs ++ s ∷ []

unfoldable pub set_union : List String → List String → List String
set_union xs [] = xs
set_union xs (y ∷ ys) = set_union (set_add y xs) ys

-- The layers that contribute a file of one name, and the encodings that they have for it.
pub record Contribution : Type 0 where
  pub layers : List String
  pub contents : List String

abbrev pub contribute : String → String → Option Contribution → Contribution
contribute layer b none = record { layers = layer ∷ []; contents = b ∷ [] }
contribute layer b (some c) = record {
  layers = set_add layer c.layers;
  contents = set_add b c.contents;
}

abbrev pub Contributions : Type 0
Contributions = List (String × Contribution)

unfoldable pub add_contribution :
    String → List FileProto → Contributions → Result LoadError Contributions
add_contribution layer [] contribs = ok contribs
add_contribution layer (f ∷ fdps) contribs = do
  b ← encoded_or f.encoded
  add_contribution layer fdps
      (put ◌==◌ f.name (contribute layer b (lookup ◌==◌ f.name contribs)) contribs)

-- The layers with their names, in lockstep.
unfoldable pub contributions :
    List (String × List FileProto) → Contributions → Result LoadError Contributions
contributions [] contribs = ok contribs
contributions ((layer, fdps) ∷ per_layer) contribs = do
  contribs' ← add_contribution layer fdps contribs
  contributions per_layer contribs'

unfoldable pub package_in : String → List FileProto → String
package_in name [] = ""
package_in name (f ∷ fdps) =
    let rest = package_in name fdps in if f.name == name then f.package_name else rest

-- The package of a file, from the first layer that contributes it.
unfoldable pub package_of : List (String × List FileProto) → String → List String → String
unfolding package_in
package_of [] name layers = ""
package_of ((layer, fdps) ∷ per_layer) name layers =
    let rest = package_of per_layer name layers in
    if has layer layers then package_in name fdps else rest

-- A file of one content is owned, unless several layers share it or it has no package.
abbrev pub is_owned : Contribution → String → Bool
is_owned c pkg =
    not (ltb 1 (length c.layers) && eqb (length c.contents) 1)
    && not (ltb 1 (length c.contents))
    && not (pkg == "")

unfoldable pub package_owners :
    List (String × List FileProto)
    → Contributions
    → List (String × List String)
    → List (String × List String)
package_owners per_layer [] owners = owners
package_owners per_layer ((name, c) ∷ contribs) owners =
    let pkg = package_of per_layer name c.layers in
    package_owners per_layer contribs (
      if is_owned c pkg
      then put ◌==◌ pkg (set_union (values ◌==◌ pkg owners) c.layers) owners
      else owners)

unfoldable pub colliding : List (String × List String) → List String
colliding [] = []
colliding ((pkg, layers) ∷ owners) =
    let rest = colliding owners in if ltb 1 (length layers) then pkg ∷ rest else rest

abbrev pub report : List (String × List String) → List String → Result LoadError (Unit {0})
report owners [] = ok tt
report owners (pkg ∷ pkgs) = err (package_collision pkg (sort_strings (values ◌==◌ pkg owners)))

-- checkPackageCollisions; the lexically first collision is reported.
unfoldable pub check_package_collisions :
    List (String × List FileProto) → Result LoadError (Unit {0})
check_package_collisions per_layer = do
  contribs ← contributions per_layer []
  let owners = package_owners per_layer contribs [] in
      report owners (sort_strings (colliding owners))
