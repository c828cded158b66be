-- ===== src/Server/Recover/Once.antt =====
-- internal/server/recover.go: one response, whatever the handler does.
use wavefront.Base.{
  String, ◌≡◌, refl, sym, ◌∙◌, Bool, true, false, not, ◌&&◌, ◌||◌, List, [], ◌∷◌, ◌++◌, Option,
  none, some, if◌then◌else◌, ◌==◌, any, length, arith, inl, inr, append_assoc, append-nil,
  Bool-cases, filter,
}
use wavefront.Json.{Bytes}
use wavefront.Headers.{Header, get}
use wavefront.Wireerror.{internal_error_error, code_name}
use wavefront.Wireerror.Write.{Response, write}
use wavefront.Wireerror.Write.Shown.{write-shown}
use wavefront.Server.Request.{Request}
use wavefront.Server.Proxy.{Config}
use wavefront.Server.Recover.{
  Action, set_header, write_header, write_bytes, Ending, returned, aborted, panicked,
  ResponseTracker, act, act_all, on_ending, emit_envelope, echoed_version, recover,
}

-- An action that begins the response.
abbrev pub begins : Action → Bool
begins (set_header k v) = false
begins (write_header status) = true
begins (write_bytes p) = true

act_all-sent :
    (t : ResponseTracker) (actions : List Action)
    → (act_all t actions).sent ≡ t.sent ++ filter begins actions
unfolding act_all act
act_all-sent t [] = sym (append-nil t.sent)
act_all-sent t (set_header k v ∷ actions) = act_all-sent (act t (set_header k v)) actions
act_all-sent t (write_header status ∷ actions) =
    act_all-sent (act t (write_header status)) actions
    ∙ append_assoc t.sent (write_header status ∷ []) (filter begins actions)
act_all-sent t (write_bytes p ∷ actions) =
    act_all-sent (act t (write_bytes p)) actions
    ∙ append_assoc t.sent (write_bytes p ∷ []) (filter begins actions)

act_all-wrote :
    (t : ResponseTracker) (actions : List Action)
    → (act_all t actions).wrote ≡ t.wrote || any begins actions
unfolding act_all act
act_all-wrote t [] = ground arith
act_all-wrote t (set_header k v ∷ actions) = act_all-wrote (act t (set_header k v)) actions
act_all-wrote t (write_header status ∷ actions) =
    act_all-wrote (act t (write_header status)) actions ∙ ground arith
act_all-wrote t (write_bytes p ∷ actions) =
    act_all-wrote (act t (write_bytes p)) actions ∙ ground arith

abbrev is_panic : Ending → Bool
is_panic panicked = true
is_panic _ = false

abbrev is_abort : Ending → Bool
is_abort aborted = true
is_abort _ = false

abbrev pub has_envelope : Option Response → Bool
has_envelope none = false
has_envelope (some response) = true

-- The envelope of a panic, with the version that the client named.
abbrev pub IsPanicEnvelope : String → Option Response → Type 0
IsPanicEnvelope version none = Unit
IsPanicEnvelope version (some response) =
    (response.status ≡ 500)
    × (get "X-Wavefront-Error" response.header ≡ "internal_error")
    × (get "X-Wavefront-Contract-Version" response.header ≡ echoed_version version)

module _ (marshal_strings : String → String → Bytes) where
  echoed_again :
      (version : String) → echoed_version (echoed_version version) ≡ echoed_version version
  echoed_again version = elim (Bool-cases (version == "")) [
    | inl e ↦ rw e refl
    | inr e ↦ rw e (rw e refl)
  ]

  write-IsPanicEnvelope :
      (w : Header) (version : String)
      → IsPanicEnvelope version
          (some (write marshal_strings w (internal_error_error "") (echoed_version version)))
  unfolding code_name
  write-IsPanicEnvelope w version =
      let at = write-shown marshal_strings w (internal_error_error "") (echoed_version version) in
      (
        (at "").1,
        (at "X-Wavefront-Error").0,
        (at "X-Wavefront-Contract-Version").0 ∙ echoed_again version,
      )

  abbrev fresh : Header → ResponseTracker
  fresh w = record { wrote = false; header = w; sent = [] }

  sent_all :
      (w : Header) (actions : List Action)
      → (act_all (fresh w) actions).sent ≡ filter begins actions
  sent_all w actions = act_all-sent (fresh w) actions

  wrote_all :
      (w : Header) (actions : List Action) → (act_all (fresh w) actions).wrote ≡ any begins actions
  wrote_all w actions = act_all-wrote (fresh w) actions

  -- The client gets what the handler sent, in its order, and behind it an envelope exactly when
  -- the handler panicked before it sent anything; the envelope is a 500 internal_error with the
  -- version that the client named under the configured header, or unknown. A panic counts once, an aborted connection not at
  -- all, and only the abort goes on as a panic.
  pub recover-once :
      (canonical_key : String → String) (cfg : Config) (r : Request) (w : Header)
      (actions : List Action) (ending : Ending)
      → let out = recover marshal_strings canonical_key cfg r w actions ending in
        (out.sent ≡ filter begins actions)
        × (has_envelope out.envelope ≡ (is_panic ending && not (any begins actions)))
        × IsPanicEnvelope (get (canonical_key cfg.contract_version_header) r.header) out.envelope
        × (length out.errors ≡ (if is_panic ending then 1 else 0))
        × (out.panics ≡ is_abort ending)
  unfolding recover on_ending emit_envelope
  recover-once canonical_key cfg r w actions returned = (sent_all w actions, refl, tt, refl, refl)
  recover-once canonical_key cfg r w actions aborted = (sent_all w actions, refl, tt, refl, refl)
  recover-once canonical_key cfg r w actions panicked = elim (Bool-cases (any begins actions)) [
    | inl e ↦ rw (wrote_all w actions ∙ e) (rw e (sent_all w actions, refl, tt, refl, refl))
    | inr e ↦ rw (wrote_all w actions ∙ e) (
        rw e (
          sent_all w actions,
          refl,
          write-IsPanicEnvelope _ (get (canonical_key cfg.contract_version_header) r.header),
          refl,
          refl,
        ))
  ]
