-- ===== src/Transform/Apply.antt =====
-- internal/transform/transform.go: the four verbs and their interpreter.
pub mod Errors
pub mod Verbs
mod Converts
pub mod Effects
pub mod Frame
pub mod Again
pub mod Coverage
use wavefront.Base.{
  ◌+◌, ◌-◌, ◌<◌, ℤ, String, ◌<>◌, Bool, true, false, not, List, [], ◌∷◌, ◌++◌, Option, none, some,
  Result, ok, err, ◌>>=◌, ◌>>◌, if◌then◌else◌, ◌==◌,
}
use wavefront.Json.{
  Json, null, bool, num, int, str, arr, obj, Fields, find, set, remove, Bytes, JsonCodec,
}
use wavefront.Transform.Path.{FieldPath, path_string, last_name}
use wavefront.Transform.Walk.{covers_by_name, walk_leaves, walk_leaves_ensure_objects}
use wavefront.Wireerror.{Error, transform_failed_request, transform_failed_response}

-- A scalar of the YAML loader; `new_default_value` admits nothing else.
pub data DefaultValue (F : Type 0) : Type 0 where
  of_null : DefaultValue F
  of_bool : Bool → DefaultValue F
  of_string : String → DefaultValue F
  of_int : ℤ → DefaultValue F
  of_float : F → DefaultValue F

-- The target of a coercion is a text, as in the source.
pub data Op (F : Type 0) : Type 0 where
  rename : FieldPath → FieldPath → Op F
  default : FieldPath → DefaultValue F → Op F
  optionalize : FieldPath → Op F
  coerce : FieldPath → String → Op F

module _ {F : Type 0} where
  -- A value of the YAML loader, as a tree; `none` is the error.
  unfoldable pub new_default_value : Json F → Option (DefaultValue F)
  new_default_value null = some of_null
  new_default_value (bool b) = some (of_bool b)
  new_default_value (str s) = some (of_string s)
  new_default_value (int z) = some (of_int z)
  new_default_value (num x) = some (of_float x)
  new_default_value (arr els) = none
  new_default_value (obj m) = none

  -- DefaultValue.JSON
  unfoldable pub to_json : DefaultValue F → Json F
  to_json of_null = null
  to_json (of_bool b) = bool b
  to_json (of_string s) = str s
  to_json (of_int z) = int z
  to_json (of_float x) = num x

abbrev bool_text : Bool → String
bool_text true = "true"
bool_text false = "false"

module _ (c : JsonCodec) where
  open c use {Float, format_float, parse_float, unmarshal, marshal}

  coerce_to_string : Json Float → Result String (Json Float)
  coerce_to_string (str s) = ok (str s)
  coerce_to_string (num x) = ok (str (format_float x))
  coerce_to_string (bool b) = ok (str (bool_text b))
  coerce_to_string v = err "value is not a scalar"

  parsed_number : Option Float → Result String (Json Float)
  parsed_number none = err "string is not numeric"
  parsed_number (some x) = ok (num x)

  coerce_to_number : Json Float → Result String (Json Float)
  unfolding parsed_number
  coerce_to_number (num x) = ok (num x)
  coerce_to_number (str s) = parsed_number (parse_float s)
  coerce_to_number v = err "value cannot become a number"

  coerce_to_bool : Json Float → Result String (Json Float)
  coerce_to_bool (bool b) = ok (bool b)
  coerce_to_bool (str s) =
      if s == "true"
      then ok (bool true)
      else if s == "false"
      then ok (bool false)
      else err "string is not true/false"
  coerce_to_bool v = err "value cannot become a bool"

  -- The function `coerce` of the source.
  unfoldable pub coerce_value : Json Float → String → Result String (Json Float)
  unfolding coerce_to_string coerce_to_number coerce_to_bool
  coerce_value v to =
      if to == "string"
      then coerce_to_string v
      else if to == "number"
      then coerce_to_number v
      else if to == "bool"
      then coerce_to_bool v
      else err ("unknown coerce target " <> to)

  module _ (fail : String → Error) where
    -- What a verb does where its leaf is absent: nothing if its path is optionalized.
    unfoldable pub absent_leaf :
        List FieldPath → FieldPath → Fields Float → String → Result Error (Fields Float)
    absent_leaf opts field parent reason =
        if covers_by_name opts field then ok parent else err (fail reason)

    -- The callbacks of the three verbs that touch leaves, by the values found at their keys.
    unfoldable pub renamed :
        List FieldPath
        → FieldPath
        → FieldPath
        → Fields Float
        → String
        → Option (Json Float)
        → Option (Json Float)
        → Result Error (Fields Float)
    renamed opts from to parent from_leaf none target =
        absent_leaf opts from parent ("rename source field " <> path_string from <> " is absent")
    renamed opts from to parent from_leaf (some v) (some _) =
        err (fail ("rename target field " <> path_string to <> " already present"))
    renamed opts from to parent from_leaf (some v) none =
        ok (set (last_name to) v (remove from_leaf parent))

    unfoldable pub rename_leaf :
        List FieldPath → FieldPath → FieldPath → Fields Float → String → Result Error (Fields Float)
    rename_leaf opts from to parent from_leaf =
        renamed opts from to parent from_leaf (find from_leaf parent) (find (last_name to) parent)

    unfoldable pub defaulted :
        DefaultValue Float
        → Fields Float
        → String
        → Option (Json Float)
        → Result Error (Fields Float)
    defaulted value parent leaf none = ok (set leaf (to_json value) parent)
    defaulted value parent leaf (some null) = ok (set leaf (to_json value) parent)
    defaulted value parent leaf (some _) = ok parent

    unfoldable pub default_leaf :
        DefaultValue Float → Fields Float → String → Result Error (Fields Float)
    default_leaf value parent leaf = defaulted value parent leaf (find leaf parent)

    unfoldable pub stored :
        FieldPath → Fields Float → String → Result String (Json Float) → Result Error (Fields Float)
    stored field parent leaf (ok cv) = ok (set leaf cv parent)
    stored field parent leaf (err reason) =
        err (fail ("coerce field " <> path_string field <> ": " <> reason))

    unfoldable pub coerced :
        List FieldPath
        → FieldPath
        → String
        → Fields Float
        → String
        → Option (Json Float)
        → Result Error (Fields Float)
    coerced opts field to parent leaf none =
        absent_leaf opts field parent ("coerce field " <> path_string field <> " is absent")
    coerced opts field to parent leaf (some v) = stored field parent leaf (coerce_value v to)

    unfoldable pub coerce_leaf :
        List FieldPath → FieldPath → String → Fields Float → String → Result Error (Fields Float)
    coerce_leaf opts field to parent leaf = coerced opts field to parent leaf (find leaf parent)

    -- One round of the loop of `apply`: the optionalized paths and the body.
    unfoldable pub apply_op :
        Op Float → List FieldPath → Fields Float → Result Error (List FieldPath × Fields Float)
    apply_op (optionalize field) opts m = ok (opts ++ field ∷ [], m)
    apply_op (rename from to) opts m = do
      m' ← walk_leaves fail opts (rename_leaf opts from to) from m
      ok (opts, m')
    apply_op (default field value) opts m = do
      m' ← walk_leaves_ensure_objects fail (default_leaf value) field m
      ok (opts, m')
    apply_op (coerce field to) opts m = do
      m' ← walk_leaves fail opts (coerce_leaf opts field to) field m
      ok (opts, m')

    unfoldable pub apply_ops :
        List (Op Float) → List FieldPath → Fields Float → Result Error (Fields Float)
    apply_ops [] opts m = ok m
    apply_ops (op ∷ ops) opts m = apply_op op opts m >>= λ s. apply_ops ops s.0 s.1

    -- json.Unmarshal into a map: a body that is no object, or null, is refused.
    unfoldable pub decoded_object : Option (Json Float) → Result Error (Fields Float)
    decoded_object (some (obj m)) = ok m
    decoded_object _ = err (fail "transform target is not a JSON object")

    unfoldable pub encoded_body : Option Bytes → Result Error Bytes
    encoded_body none = err (fail "could not re-encode transformed body")
    encoded_body (some out) = ok out

    unfoldable pub apply_with : List (Op Float) → Bytes → Result Error Bytes
    unfolding decoded_object encoded_body
    apply_with [] body = ok body
    apply_with (op ∷ ops) body = do
      m ← decoded_object (unmarshal body)
      out ← apply_ops (op ∷ ops) [] m
      encoded_body (marshal (obj out))

  unfoldable pub apply : List (Op Float) → Bytes → Bool → Result Error Bytes
  apply ops body request =
      apply_with (if request then transform_failed_request else transform_failed_response) ops body

  unfoldable pub apply_request : List (Op Float) → Bytes → Result Error Bytes
  unfolding apply
  apply_request ops body = apply ops body true

  unfoldable pub apply_response : List (Op Float) → Bytes → Result Error Bytes
  unfolding apply
  apply_response ops body = apply ops body false
