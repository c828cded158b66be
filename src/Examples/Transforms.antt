-- ===== src/Examples/Transforms.antt =====
-- internal/transform at concrete inputs.
use wavefront.Base.{◌↔◌, ℕ, pos, String, ◌<>◌, ◌≡◌, refl, true, List, [], ◌∷◌, ok, err}
use wavefront.Json.{num, str, arr, obj, nil, cons, Fields, end, find, set, remove}
use wavefront.Transform.Path.{FieldPath, path_string, last_name}
use wavefront.Transform.Walk.{walk_leaves, walk_leaves_ensure_objects, descend}
use wavefront.Transform.Walk.Leaves.{Leaves, Skipped, Created}
use wavefront.Transform.Apply.{
  of_string, of_int, rename, default, optionalize, coerce, to_json, coerce_value, renamed,
  rename_leaf, defaulted, default_leaf, stored, coerced, coerce_leaf, apply_op, apply_ops,
  decoded_object, apply_with, apply,
}
use wavefront.Wireerror.{transform_failed, transform_failed_request}
use wavefront.Json.{field}
use wavefront.Transform.Path.{parse_path}
use wavefront.Transform.Path.RoundTrip.{parse_path_iff, IsGrammatical}
use wavefront.Transform.Apply.Effects.{
  IsCoerced, IsFilled, IsRenamed, coerce-Leaves, default-Leaves, rename-Leaves,
}
use wavefront.Transform.Apply.Frame.{apply_ops-frame}
use wavefront.Transform.Apply.Again.{apply_op-again}
use wavefront.Transform.Apply.Coverage.{key, coerce-nested_optionalize, default-coerce_int}
use wavefront.Transform.Apply.Errors.{apply-error}
use wavefront.Transform.Walk.{ensure, each_object}
use wavefront.Examples.Codec.{codec}

abbrev members : FieldPath
members = record { name = "groups"; array = true } ∷ key "id" ∷ []

parse_path_iff_example :
    (parse_path "groups[].id" ≡ ok members)
    ↔ ((path_string members ≡ "groups[].id") × IsGrammatical members)
parse_path_iff_example = parse_path_iff "groups[].id" members

-- A body with an object, an array of objects, and a number.
abbrev body : Fields ℕ
body = field "user" (obj (field "name" (str "x") end)) (
    field "groups"
      (arr (cons (obj (field "id" (num 1) end)) (cons (obj (field "id" (num 2) end)) nil)))
      (field "n" (num 1) end))

abbrev id_text : Fields ℕ
id_text = field "user" (obj (field "name" (str "x") end)) (
    field "groups"
      (arr (cons (obj (field "id" (str "1") end)) (cons (obj (field "id" (str "2") end)) nil)))
      (field "n" (num 1) end))

coerced_body :
    apply_op codec transform_failed_request (coerce members "string") [] body ≡ ok ([], id_text)
unfolding apply_op walk_leaves descend each_object coerce_leaf coerced stored coerce_value find set
coerced_body = refl

coerce-Leaves_example :
    (◌≡◌ {A = List FieldPath} [] [])
    × Leaves
        (Skipped [])
        (IsCoerced codec transform_failed_request [] members "string")
        members
        body
        id_text
coerce-Leaves_example =
    coerce-Leaves codec transform_failed_request members "string" [] [] body id_text coerced_body

apply_op-again_example :
    apply_op codec transform_failed_request (coerce members "string") [] id_text ≡ ok ([], id_text)
apply_op-again_example =
    apply_op-again codec transform_failed_request (coerce members "string") [] [] body id_text tt
      coerced_body

abbrev role : FieldPath
role = key "user" ∷ key "role" ∷ []

abbrev with_role : Fields ℕ
with_role = field "user" (obj (field "name" (str "x") (field "role" (str "guest") end))) (
    field "groups"
      (arr (cons (obj (field "id" (num 1) end)) (cons (obj (field "id" (num 2) end)) nil)))
      (field "n" (num 1) end))

defaulted_body :
    apply_op codec transform_failed_request (default role (of_string "guest")) [] body
    ≡ ok ([], with_role)
unfolding apply_op walk_leaves_ensure_objects ensure default_leaf defaulted find set to_json
defaulted_body = refl

default-Leaves_example :
    (◌≡◌ {A = List FieldPath} [] [])
    × Leaves Created (IsFilled (of_string "guest")) role body with_role
default-Leaves_example =
    default-Leaves codec transform_failed_request role (of_string "guest") [] [] body with_role
      defaulted_body

abbrev name : FieldPath
name = key "user" ∷ key "name" ∷ []

abbrev nick : FieldPath
nick = key "user" ∷ key "nick" ∷ []

abbrev renamed_body : Fields ℕ
renamed_body = field "user" (obj (field "nick" (str "x") end)) (
    field "groups"
      (arr (cons (obj (field "id" (num 1) end)) (cons (obj (field "id" (num 2) end)) nil)))
      (field "n" (num 1) end))

renames : apply_op codec transform_failed_request (rename name nick) [] body ≡ ok ([], renamed_body)
unfolding apply_op walk_leaves descend rename_leaf renamed find set remove last_name
renames = refl

rename-Leaves_example :
    (◌≡◌ {A = List FieldPath} [] [])
    × Leaves (Skipped []) (IsRenamed [] name nick) name body renamed_body
unfolding last_name
rename-Leaves_example =
    rename-Leaves codec transform_failed_request name nick [] [] body renamed_body refl renames

renames_only :
    apply_ops codec transform_failed_request (rename name nick ∷ []) [] body ≡ ok renamed_body
unfolding apply_ops apply_op walk_leaves descend rename_leaf renamed find set remove last_name
renames_only = refl

apply_ops-frame_example : find "n" renamed_body ≡ find "n" body
apply_ops-frame_example =
    apply_ops-frame codec transform_failed_request "n" (rename name nick ∷ []) [] body renamed_body
      (refl, tt) renames_only

apply-error_example : (transform_failed ≡ transform_failed) × (◌≡◌ {A = ℕ} 422 422)
unfolding apply apply_with decoded_object
apply-error_example =
    apply-error codec (coerce (key "n" ∷ []) "string" ∷ []) [] true
      (transform_failed_request "transform target is not a JSON object") refl

coerce-nested_optionalize_example :
    apply_ops codec transform_failed_request
      (optionalize (key "user" ∷ key "mail" ∷ [])
        ∷ coerce (key "user" ∷ key "mail" ∷ key "age" ∷ []) "string"
        ∷ [])
      []
      body
    ≡ err (
        transform_failed_request
          ("path " <> path_string (key "mail" ∷ key "age" ∷ []) <> ": segment mail is absent"))
unfolding find
coerce-nested_optionalize_example =
    coerce-nested_optionalize codec transform_failed_request "user" "mail" "age" [] "string" body
      (field "name" (str "x") end) refl refl refl

default-coerce_int_example :
    (reason : String) × (apply_ops codec transform_failed_request
        (default (key "age" ∷ []) (of_int (pos 5)) ∷ coerce (key "age" ∷ []) "string" ∷ [])
        []
        body
      ≡ err (transform_failed_request reason))
unfolding find
default-coerce_int_example =
    default-coerce_int codec transform_failed_request "age" (pos 5) "string" [] body refl
