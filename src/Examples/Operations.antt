-- ===== src/Examples/Operations.antt =====
-- Panics, the stdlib boundary and tracing at concrete inputs.
use wavefront.Base.{
  ℕ, zero, suc, String, ◌≡◌, refl, true, false, List, [], ◌∷◌, ◌++◌, none, eqb, length, inr, filter,
}
use wavefront.Base.Dict.{lookup, put}
use wavefront.Base.Text.{split}
use wavefront.Headers.{get}
use wavefront.Json.{Bytes}
use wavefront.Server.StatusLine.{parse_status_line}
use wavefront.Server.Boundary.{
  Boundary, Event, accepted, written, state_changed, state_active, state_idle, state_closed, step,
  run, conn_state, status_or_unknown,
}
use wavefront.Server.Boundary.Lifecycle.{
  System, Reachable, started, moved, at_start, entry_of, accepts, activates, closes,
  Reachable-counted, set_phase, fresh, serving, gone,
}
use wavefront.Server.Boundary.Label.{run-label}
use wavefront.Server.Recover.{set_header, panicked, recover}
use wavefront.Server.Recover.Once.{recover-once, has_envelope, begins, IsPanicEnvelope}
use wavefront.Tracing.Traceparent.{
  Traceparent, parse_traceparent, decode_string, IsId, parse_traceparent-IsId,
}
use wavefront.Tracing.Exporter.{Span, new_exporter, enqueue, shutdown}
use wavefront.Tracing.Exporter as Exporting
use wavefront.Tracing.Exporter.Queue.{IsBounded, Reachable-IsBounded}
use wavefront.Tracing.Exporter.Drain.{Inevitable, IsDrained, Reachable-IsDrained}
use wavefront.Examples.Platform.{config, request}

abbrev itoa : ℕ → String
itoa n = "n"

-- A connection that sends a request which net/http refuses by itself.
abbrev refused : System
refused = record {
  phases = set_phase 7 gone (set_phase 7 (serving false) (set_phase 7 fresh at_start.phases));
  boundary =
      run itoa
        ((7, accepted) ∷ (7, state_changed state_active) ∷ (7, state_changed state_closed) ∷ [])
        at_start.boundary;
  unserved = 1;
}

refused-Reachable : Reachable itoa refused
unfolding run
refused-Reachable =
    moved _ 7 (state_changed state_closed) gone
      (moved _ 7 (state_changed state_active) (serving false)
        (moved _ 7 accepted fresh started accepts) activates)
      (closes false)

Reachable-counted_example :
    ((c : ℕ) → lookup eqb c refused.boundary.entries ≡ entry_of (refused.phases c))
    × (length refused.boundary.counted ≡ 1)
Reachable-counted_example = Reachable-counted itoa refused refused-Reachable

abbrev bytes_of : ℕ → Bytes
bytes_of d =
    b'H' ∷ b'T' ∷ b'T' ∷ b'P' ∷ b'/' ∷ b'1' ∷ b'.' ∷ b'1' ∷ b' ' ∷ d ∷ b'0' ∷ b'0' ∷ b' ' ∷ []

-- The first request is answered with 200, the second one by net/http itself with 400.
abbrev dialed : Boundary
dialed = record {
  entries = (7, true) ∷ [];
  conns = (7, record { once_done = false; status = 0 }) ∷ [];
  counted = [];
}

abbrev second : List (ℕ × Event)
second =
    (7, state_changed state_idle)
    ∷ (7, state_changed state_active)
    ∷ (7, written (bytes_of b'4'))
    ∷ []

run-label_example :
    let t = run itoa second (step itoa 7 (written (bytes_of b'2')) dialed) in
    (step itoa 7 (state_changed state_closed) t).counted
    ≡ status_or_unknown itoa (parse_status_line (bytes_of b'2')) ∷ t.counted
unfolding run step conn_state lookup put
run-label_example = run-label itoa 7 b'H' _ second dialed refl (inr tt, (inr tt, (inr tt, tt))) refl

recover-once_example :
    let out =
      recover (λ a b. []) (λ k. k) config request [] (set_header "Vary" "Origin" ∷ []) panicked in
    (out.sent ≡ filter begins (set_header "Vary" "Origin" ∷ []))
    × (has_envelope out.envelope ≡ true)
    × IsPanicEnvelope (get config.contract_version_header request.header) out.envelope
    × (length out.errors ≡ 1)
    × (out.panics ≡ false)
recover-once_example =
    recover-once (λ a b. []) (λ k. k) config request [] (set_header "Vary" "Origin" ∷ []) panicked

abbrev traceparent : String
traceparent = "00-0af7651916cd43dd8448eb211c80319c-b7ad6b7169203331-01"

abbrev zeros : ℕ → Bytes
zeros zero = []
zeros (suc n) = 0 ∷ zeros n

abbrev short_id : Traceparent
short_id = record { trace_id = zeros 15 ++ 1 ∷ []; parent_id = zeros 7 ++ 2 ∷ []; sampled = true }

parse_traceparent-IsId_example : IsId 16 short_id.trace_id × IsId 8 short_id.parent_id
unfolding parse_traceparent split decode_string
parse_traceparent-IsId_example =
    parse_traceparent-IsId "00-00000000000000000000000000000001-0000000000000002-01" short_id refl

abbrev span : Span
span = record { trace_id = 1 ∷ []; span_id = 2 ∷ []; parent_id = none; name = "proxy" }

abbrev offered_once : Exporting.Reachable (enqueue span new_exporter)
offered_once = Exporting.offered span new_exporter Exporting.built

Reachable-IsBounded_example : IsBounded (enqueue span new_exporter)
Reachable-IsBounded_example = Reachable-IsBounded offered_once

Reachable-IsDrained_example : Inevitable IsDrained (shutdown (enqueue span new_exporter))
unfolding shutdown enqueue
Reachable-IsDrained_example =
    Reachable-IsDrained (shutdown (enqueue span new_exporter))
      (Exporting.stopped (enqueue span new_exporter) offered_once) refl (λ e. cc)
