-- ===== src/Bundle/Merge.antt =====
-- internal/bundle/bundle.go: the descriptors of all layers, mergeDescriptors and
-- checkPackageCollisions.
pub mod Union
use wavefront.Base.{
  ◌+◌, ◌<◌, String, ◌<>◌, not, List, [], ◌∷◌, ◌++◌, Option, none, some, Result, ok, err, ◌>>=◌,
  ◌>>◌, ◌==◌, fail_if,
}
use wavefront.Base.Dict.{lookup, put}
use wavefront.Bundle.Failure.{LoadError, parse_error}

-- A FileDescriptorProto: its name, its package, and its deterministic encoding, which can fail.
pub record FileProto : Type 0 where
  pub name : String
  pub package_name : String
  pub encoded : Option String

-- What mergeDescriptors has seen and kept so far.
pub record Merged : Type 0 where
  pub seen : List (String × String)
  pub files : List FileProto

abbrev pub no_files : Merged
no_files = record { seen = []; files = [] }

-- A file whose name was not seen, or was seen with these bytes.
unfoldable pub add_known : Merged → FileProto → String → Option String → Result LoadError Merged
add_known m f b none = ok (record { seen = put ◌==◌ f.name b m.seen; files = m.files ++ f ∷ [] })
add_known m f b (some prev) = do
  fail_if (not (prev == b)) (
      parse_error "descriptors.binpb" ("conflicting definitions of " <> f.name <> " across layers"))
  ok m

abbrev pub encoded_or : Option String → Result LoadError String
encoded_or none = err (parse_error "descriptors.binpb" "")
encoded_or (some b) = ok b

unfoldable pub add_file : Merged → FileProto → Result LoadError Merged
add_file m f = do b ← encoded_or f.encoded; add_known m f b (lookup ◌==◌ f.name m.seen)

unfoldable pub add_files : Merged → List FileProto → Result LoadError Merged
add_files m [] = ok m
add_files m (f ∷ fdps) = do m' ← add_file m f; add_files m' fdps

-- mergeDescriptors, before protodesc.NewFiles
unfoldable pub merge_descriptors : Merged → List (List FileProto) → Result LoadError Merged
merge_descriptors m [] = ok m
merge_descriptors m (fdps ∷ per_layer) = do m' ← add_files m fdps; merge_descriptors m' per_layer
