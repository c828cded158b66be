-- ===== src/Bundlegen/Drift/Draft.antt =====
-- internal/bundlegen/drift.go: the stanzas, candidates and notes of one direction.
use wavefront.Base.{
  String, ◌<>◌, Bool, true, false, not, ◌&&◌, ◌||◌, List, [], ◌∷◌, ◌++◌, map, if◌then◌else◌, ◌==◌,
  filter,
}
use wavefront.Bundlegen.Schema.{
  Schema, Zero, field_schema, primitive_type, top_level_properties, zero_for_schema,
}
use wavefront.Bundlegen.Drift.{
  Matching, contains, sorted_keys, unused, match_case_renames, match_ambiguous_pairs,
}

-- transform.Kind
pub data Kind : Type 0 where
  kind_rename kind_default kind_optionalize kind_coerce : Kind

pub data Confidence : Type 0 where
  confident ambiguous : Confidence

-- StanzaArgs
pub data StanzaArgs : Type 0 where
  rename_args : String → String → StanzaArgs
  default_args : String → Zero → StanzaArgs
  optionalize_args : String → StanzaArgs
  coerce_args : String → String → StanzaArgs

pub record Signal : Type 0 where
  pub kind : String
  pub value : String

-- Signal.String
unfoldable pub signal_string : Signal → String
signal_string s = if s.value == "" then s.kind else s.kind <> (":" <> s.value)

abbrev bare : String → Signal
bare kind = record { kind = kind; value = "" }

abbrev pub pure_add_signal : Signal
pure_add_signal = bare "pure-add"

abbrev pub type_change_signal : Signal
type_change_signal = bare "type-change"

abbrev pub from_type_signal : String → Signal
from_type_signal t = record { kind = "from"; value = t }

abbrev pub to_type_signal : String → Signal
to_type_signal t = record { kind = "to"; value = t }

abbrev pub case_rename_signal : Signal
case_rename_signal = bare "case-rename"

abbrev pub same_type_signal : String → Signal
same_type_signal t = record { kind = "same-type"; value = t }

abbrev pub no_name_signal : Signal
no_name_signal = bare "no-name-signal"

pub record StanzaProposal : Type 0 where
  pub verb : Kind
  pub args : StanzaArgs
  pub confidence : Confidence
  pub signals : List Signal

pub record CandidatePair : Type 0 where
  pub from : String
  pub to : String
  pub type_token : String
  pub signals : List Signal

-- What draftDirection returns.
pub record Draft : Type 0 where
  pub stanzas : List StanzaProposal
  pub candidates : List CandidatePair
  pub notes : List String

-- The pairing of the fields that one side lacks: confident renames, ambiguous candidates, and the
-- fields that found no peer.
pub record Plan : Type 0 where
  pub removed : List String
  pub added : List String
  pub renames : Matching
  pub candidates : Matching
  pub unmatched_added : List String

-- `quote` writes a text as fmt's %q does.
module _ (to_lower quote : String → String) where
  module _ (from_fields to_fields : List (String × Schema)) where
    abbrev pub from_names : List String
    from_names = sorted_keys from_fields

    abbrev to_names : List String
    to_names = sorted_keys to_fields

    abbrev pub removed_fields : List String
    removed_fields = filter (λ n. not (contains n to_names)) from_names

    abbrev pub added_fields : List String
    added_fields = filter (λ n. not (contains n from_names)) to_names

    -- The case renames, which `strict` leaves out.
    abbrev pub renames_of : Bool → Matching
    renames_of true = record { pairs = []; unmatched = removed_fields; used = [] }
    renames_of false = match_case_renames to_lower from_fields to_fields removed_fields added_fields

    abbrev pub leftover : Bool → List String
    leftover strict = unused (renames_of strict) added_fields

    abbrev pub candidates_of : Bool → Matching
    candidates_of strict =
        match_ambiguous_pairs to_lower from_fields to_fields (renames_of strict).unmatched
          (leftover strict)

    -- draftDirection, the pairing
    unfoldable pub plan_fields : Bool → Plan
    plan_fields strict = record {
      removed = removed_fields;
      added = added_fields;
      renames = renames_of strict;
      candidates = candidates_of strict;
      unmatched_added = unused (candidates_of strict) (leftover strict);
    }

    abbrev pub from_type_of : String → String
    from_type_of n = primitive_type (field_schema n from_fields)

    abbrev pub to_type_of : String → String
    to_type_of n = primitive_type (field_schema n to_fields)

    unfoldable pub rename_stanza : String × String → StanzaProposal
    rename_stanza (r, a) = record {
      verb = kind_rename;
      args = rename_args r a;
      confidence = confident;
      signals = case_rename_signal ∷ same_type_signal (from_type_of r) ∷ [];
    }

    unfoldable pub default_stanza : String → StanzaProposal
    default_stanza n = record {
      verb = kind_default;
      args = default_args n (zero_for_schema (field_schema n to_fields));
      confidence = confident;
      signals = pure_add_signal ∷ [];
    }

    abbrev pub coerce_stanza : String → StanzaProposal
    coerce_stanza n = record {
      verb = kind_coerce;
      args = coerce_args n (to_type_of n);
      confidence = confident;
      signals =
          type_change_signal
          ∷ from_type_signal (from_type_of n)
          ∷ to_type_signal (to_type_of n)
          ∷ [];
    }

    -- A field of both shapes whose primitive type changed.
    abbrev pub is_changed : String → Bool
    is_changed n =
        contains n to_names
        && not (from_type_of n == "" || to_type_of n == "" || from_type_of n == to_type_of n)

    unfoldable pub coerce_stanzas : List String → List StanzaProposal
    coerce_stanzas [] = []
    coerce_stanzas (n ∷ names) =
        let rest = coerce_stanzas names in if is_changed n then coerce_stanza n ∷ rest else rest

    candidate_pair : String × String → CandidatePair
    candidate_pair (r, a) = record {
      from = r;
      to = a;
      type_token = from_type_of r;
      signals = same_type_signal (from_type_of r) ∷ no_name_signal ∷ [];
    }

    note : String → String → String
    note side name =
        side
        <> " field "
        <> quote name
        <> " is present in the from shape but absent from the to shape; the transform verb set has no way to drop a known field, so the operator must reconcile this manually"

    -- The stanzas of a plan: renames, defaults, coercions.
    unfoldable pub stanzas_of : Plan → List StanzaProposal
    stanzas_of p =
        map rename_stanza p.renames.pairs
        ++ (map default_stanza p.unmatched_added ++ coerce_stanzas from_names)

    unfoldable pub draft_fields : String → Bool → Draft
    unfolding candidate_pair note
    draft_fields side strict =
        let p = plan_fields strict in
        record {
          stanzas = stanzas_of p;
          candidates = map candidate_pair p.candidates.pairs;
          notes = map (note side) p.candidates.unmatched;
        }

  -- draftDirection
  unfoldable pub draft_direction : Schema → Schema → String → Bool → Draft
  draft_direction from to side strict =
      draft_fields (top_level_properties from) (top_level_properties to) side strict

  pub record ShimProposal : Type 0 where
    pub from_version : String
    pub to_version : String
    pub request : Draft
    pub response : Draft
    pub notes : List String

  -- draftShim, on the schemas that operationSchemas found
  unfoldable pub draft_shim :
      String → String → Schema → Schema → Schema → Schema → Bool → ShimProposal
  draft_shim from_version to_version from_req from_resp to_req to_resp strict =
      let request = draft_direction from_req to_req "request" strict in
      let response = draft_direction to_resp from_resp "response" strict in
      record {
        from_version = from_version;
        to_version = to_version;
        request = request;
        response = response;
        notes = request.notes ++ response.notes;
      }
