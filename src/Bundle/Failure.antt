-- ===== src/Bundle/Failure.antt =====
-- internal/bundle: the typed errors of a load.
use wavefront.Base.{ℕ, ℤ, String, List}
use wavefront.Transform.Path.{PathError}

-- Why a path does not fit a message, with the field's name and the segment's index from 1.
pub data PathFault : Type 0 where
  no_field not_repeated must_iterate scalar_intermediate : String → ℕ → PathFault

-- The reason of a ValidationError. The text that a YAML decoder adds is left out.
pub data Reason : Type 0 where
  because : String → Reason
  bad_path : PathError → Reason
  bad_field : String → PathFault → Reason

pub data LoadError : Type 0 where
  validation : String → String → Reason → LoadError
  unsupported_version : ℤ → LoadError
  message_not_found : String → String → LoadError
  parse_error : String → String → LoadError
  package_collision : String → List String → LoadError
