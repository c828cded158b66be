-- ===== src/Server/Recover.antt =====
-- internal/server/recover.go: the middleware that turns a panic of the handler into a response.
pub mod Once
use wavefront.Base.{
  ℕ, ◌+◌, String, Bool, true, false, List, [], ◌∷◌, ◌++◌, Option, none, some, if◌then◌else◌, ◌==◌,
}
use wavefront.Json.{Bytes}
use wavefront.Headers.{Header, get, set}
use wavefront.Wireerror.{Error, code_name, internal_error_error, internal_error}
use wavefront.Wireerror.Write.{Response, write, version_unknown}
use wavefront.Server.Request.{Request}
use wavefront.Server.Proxy.{Config}

-- What a handler does with the ResponseWriter that it is given.
pub data Action : Type 0 where
  set_header : String → String → Action
  write_header : ℕ → Action
  write_bytes : Bytes → Action

-- How a call of a handler ends: it returns, or panics with http.ErrAbortHandler or another value.
pub data Ending : Type 0 where
  returned aborted panicked : Ending

-- responseTracker with the writer that it wraps: the header map so far, and the calls of
-- WriteHeader and Write that it passed on.
pub record ResponseTracker : Type 0 where
  pub wrote : Bool
  pub header : Header
  pub sent : List Action

-- responseTracker.WriteHeader, responseTracker.Write
unfoldable pub act : ResponseTracker → Action → ResponseTracker
act t (set_header k v) = record t { header = set k v t.header }
act t (write_header status) = record t { wrote = true; sent = t.sent ++ write_header status ∷ [] }
act t (write_bytes p) = record t { wrote = true; sent = t.sent ++ write_bytes p ∷ [] }

unfoldable pub act_all : ResponseTracker → List Action → ResponseTracker
act_all t [] = t
act_all t (a ∷ actions) = act_all (act t a) actions

-- What leaves the middleware: the handler's calls, the envelope behind them, the counts of the
-- errors metric, the logged messages, and whether it panics again.
pub record Recovered : Type 0 where
  pub sent : List Action
  pub envelope : Option Response
  pub errors : List (String × String × String)
  pub log : List String
  pub panics : Bool

-- The version that the envelope echoes.
abbrev pub echoed_version : String → String
echoed_version v = if v == "" then version_unknown else v

module _ (marshal_strings : String → String → Bytes) where
  -- The deferred function behind its guards: another panic, after the handler started or not.
  unfoldable pub emit_envelope : ResponseTracker → String → Recovered
  emit_envelope t version = record {
    sent = t.sent;
    envelope =
        if t.wrote
        then none
        else some (write marshal_strings t.header (internal_error_error "") version);
    errors = (code_name internal_error, version_unknown, "") ∷ [];
    log =
        "panic recovered in proxy handler"
        ∷ (if t.wrote
            then "panic after response started; cannot emit wavefront.v0.Error envelope" ∷ []
            else []);
    panics = false;
  }

  -- The deferred function
  unfoldable pub on_ending : ResponseTracker → String → Ending → Recovered
  on_ending t version returned = record {
    sent = t.sent;
    envelope = none;
    errors = [];
    log = [];
    panics = false;
  }
  on_ending t version aborted = record {
    sent = t.sent;
    envelope = none;
    errors = [];
    log = [];
    panics = true;
  }
  on_ending t version panicked = emit_envelope t version

  -- Recover, for a handler that does these actions on this request; `canonical_key` is
  -- http.CanonicalHeaderKey, which r.Header.Get applies to the configured name.
  unfoldable pub recover :
      (String → String) → Config → Request → Header → List Action → Ending → Recovered
  recover canonical_key cfg r w actions ending =
      on_ending (act_all (record { wrote = false; header = w; sent = [] }) actions)
        (echoed_version (get (canonical_key cfg.contract_version_header) r.header)) ending
