-- ===== src/Negotiate.antt =====
-- internal/negotiate/negotiate.go: the contract that the client's version header names.
pub mod Binds
use wavefront.Base.{
  ◌-◌, ◌<◌, String, ◌<>◌, not, Option, none, some, Result, ok, err, ◌>>=◌, ◌>>◌, ◌==◌, fail_if,
}
use wavefront.Base.Text.{trim_space}
use wavefront.Bundle.{Bundle, Resolved, Selectors, first_of_version, lookup_contract}
use wavefront.Wireerror.{Error, unsupported_contract_version_error}

module _ {F : Type 0} where
  abbrev miss : String → String → String → Option (Resolved F) → Error
  miss path method v none =
      unsupported_contract_version_error ("contract version " <> v <> " is not in the bundle")
  miss path method v (some known) =
      unsupported_contract_version_error
        ("contract version " <> v <> " does not bind " <> method <> " " <> path)

  abbrev found_or : Error → Option (Resolved F) → Result Error (Resolved F)
  found_or e none = err e
  found_or e (some c) = ok c

  -- Resolve
  unfoldable pub resolve :
      Bundle F → String → String → String → Selectors → Result Error (Resolved F)
  resolve b path method header_value selectors =
      let v = trim_space header_value in
      do
        fail_if (v == "") (unsupported_contract_version_error "missing contract-version header")
        found_or (miss path method v (first_of_version b v))
            (lookup_contract b path method v selectors)
