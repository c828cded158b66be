-- ===== src/Bundlegen/Schema.antt =====
-- internal/bundlegen/bundlegen.go: the part of an OpenAPI document that the package reads.
use wavefront.Base.{String, Bool, false, not, ◌||◌, List, [], ◌∷◌, if◌then◌else◌, ◌==◌}
use wavefront.Json.{Bytes}

-- A *schema, nil or with the fields Ref, Type, Format, Nullable, Properties, Items, AllOf, OneOf,
-- AnyOf, AdditionalProperties and Discriminator; a raw message that is absent is empty.
mutual
  pub data Schema : Type 0 where
    no_schema : Schema
    schema :
        String
        → String
        → String
        → Bool
        → Properties
        → Schema
        → Schemas
        → Schemas
        → Schemas
        → Bytes
        → Bytes
        → Schema

  pub data Schemas : Type 0 where
    no_more : Schemas
    more : Schema → Schemas → Schemas

  pub data Properties : Type 0 where
    no_properties : Properties
    property : String → Schema → Properties → Properties

-- A schema with a reference, a type and a format, and nothing else.
abbrev pub leaf : String → String → String → Schema
leaf ref type_name format =
    schema ref type_name format false no_properties no_schema no_more no_more no_more [] []

abbrev pub entries : Properties → List (String × Schema)
entries no_properties = []
entries (property name s rest) = (name, s) ∷ entries rest

-- topLevelProperties
unfoldable pub top_level_properties : Schema → List (String × Schema)
top_level_properties no_schema = []
top_level_properties (schema _ _ _ _ properties _ _ _ _ _ _) = entries properties

-- fields[name], where the zero value is nil
unfoldable pub field_schema : String → List (String × Schema) → Schema
field_schema name [] = no_schema
field_schema name ((n, s) ∷ fields) = if n == name then s else field_schema name fields

abbrev pub integer_type : String → String
integer_type format = if format == "int64" then "int64" else "int32"

abbrev pub number_type : String → String
number_type format = if format == "float" then "float" else "double"

-- The switch of `primitiveType` on Type and Format.
abbrev pub token_of : String → String → String
token_of type_name format =
    if type_name == "string" || type_name == "boolean"
    then type_name
    else if type_name == "integer"
    then integer_type format
    else if type_name == "number"
    then number_type format
    else ""

-- primitiveType
unfoldable pub primitive_type : Schema → String
primitive_type no_schema = ""
primitive_type (schema ref type_name format _ _ _ _ _ _ _ _) =
    if not (ref == "") then "" else token_of type_name format

-- The values that seed a drafted default.
pub data Zero : Type 0 where
  empty_text false_value zero_int zero_float empty_array empty_object : Zero

-- zeroForSchema
unfoldable pub zero_for_schema : Schema → Zero
zero_for_schema no_schema = empty_text
zero_for_schema (schema _ type_name _ _ _ _ _ _ _ _ _) =
    if type_name == "boolean"
    then false_value
    else if type_name == "integer" || type_name == "number"
    then zero_int
    else if type_name == "array"
    then empty_array
    else if type_name == "object"
    then empty_object
    else empty_text
