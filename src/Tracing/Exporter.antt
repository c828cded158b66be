-- ===== src/Tracing/Exporter.antt =====
-- internal/tracing/exporter.go: spans, their start, and the bounded queue to the worker.
pub mod Queue
pub mod Drain
use wavefront.Base.{
  ℕ, ◌+◌, ◌<◌, String, ◌<>◌, ◌≡◌, Bool, true, false, ◌||◌, List, [], ◌∷◌, ◌++◌, Option, none, some,
  if◌then◌else◌, ◌==◌, ltb, length,
}
use wavefront.Base.Text.{trim_space, trim_end}
use wavefront.Json.{Bytes}
use wavefront.Tracing.Traceparent.{Traceparent, parse_traceparent}

abbrev pub queue_depth : ℕ
queue_depth = 1024

-- What the exporter does with float64.
pub record Ratios : Type 1 where
  pub Float : Type 0
  pub one : Float
  pub at_most_zero : Float → Bool
  pub at_least_one : Float → Bool
  pub above_one : Float → Bool
  pub fraction_below : Bytes → Float → Bool

pub record Span : Type 0 where
  pub trace_id : Bytes
  pub span_id : Bytes
  pub parent_id : Option Bytes
  pub name : String

-- The phases of the worker: the outer loop, the loop behind stopCh, and behind close(doneCh).
pub data Worker : Type 0 where
  running draining finished : Worker

-- `accepted` and `dropped` record what happened to the spans that ended.
pub record Exporter : Type 0 where
  pub queue : List Span
  pub stopping : Bool
  pub worker : Worker
  pub exported : List Span
  pub accepted : List Span
  pub dropped : List Span

abbrev pub new_exporter : Exporter
new_exporter = record {
  queue = [];
  stopping = false;
  worker = running;
  exported = [];
  accepted = [];
  dropped = [];
}

-- Exporter.enqueue
unfoldable pub enqueue : Span → Exporter → Exporter
enqueue s e =
    if ltb (length e.queue) queue_depth
    then record e { queue = e.queue ++ s ∷ []; accepted = e.accepted ++ s ∷ [] }
    else record e { dropped = e.dropped ++ s ∷ [] }

-- Exporter.Shutdown, up to the wait for doneCh
unfoldable pub shutdown : Exporter → Exporter
shutdown e = record e { stopping = true }

-- Exporter.run: one choice of a select.
pub data Works : Exporter → Exporter → Type 0 where
  takes :
      (e : Exporter) (s : Span) (q : List Span)
      → e.worker ≡ running
      → e.queue ≡ s ∷ q
      → Works e (record e { queue = q; exported = e.exported ++ s ∷ [] })
  sees_stop :
      (e : Exporter)
      → e.worker ≡ running
      → e.stopping ≡ true
      → Works e (record e { worker = draining })
  drains :
      (e : Exporter) (s : Span) (q : List Span)
      → e.worker ≡ draining
      → e.queue ≡ s ∷ q
      → Works e (record e { queue = q; exported = e.exported ++ s ∷ [] })
  ends :
      (e : Exporter) → e.worker ≡ draining → e.queue ≡ [] → Works e (record e { worker = finished })

-- Requests end their spans, Shutdown is called, and the worker runs, in any order.
pub data Reachable : Exporter → Type 0 where
  built : Reachable new_exporter
  offered : (s : Span) (e : Exporter) → Reachable e → Reachable (enqueue s e)
  stopped : (e : Exporter) → Reachable e → Reachable (shutdown e)
  worked : (e f : Exporter) → Reachable e → Works e f → Reachable f

module _ (rs : Ratios) where
  open rs use {Float, one, at_most_zero, at_least_one, above_one, fraction_below}

  -- Config with what NewExporter makes of it.
  pub record ExporterSettings : Type 0 where
    pub endpoint : String
    pub service : String
    pub ratio : Float

  -- NewExporter, without the client and the worker
  unfoldable pub new_settings : String → String → Float → Option ExporterSettings
  new_settings endpoint service ratio =
      if trim_space endpoint == ""
      then none
      else some (record {
        endpoint = trim_end b'/' endpoint <> "/v1/traces";
        service = if service == "" then "wavefront" else service;
        ratio = if at_most_zero ratio || above_one ratio then one else ratio;
      })

  -- Exporter.rootSampled; rand.Read gives the bytes or fails.
  unfoldable pub root_sampled : ExporterSettings → Option Bytes → Bool
  root_sampled e random =
      if at_least_one e.ratio then true else if at_most_zero e.ratio then false else drawn random
    where
      drawn : Option Bytes → Bool
      drawn none = true
      drawn (some b) = fraction_below b e.ratio

  -- The trace of a span: that of a sampled parent, or the random root of a sampled trace.
  abbrev pub trace_of :
      ExporterSettings → Option Traceparent → Option Bytes → Bytes → Option (Bytes × Option Bytes)
  trace_of e (some tp) random root =
      if tp.sampled then some (tp.trace_id, some tp.parent_id) else none
  trace_of e none random root = if root_sampled e random then some (root, none) else none

  abbrev span_of : String → Bytes → Option (Bytes × Option Bytes) → Option Span
  span_of name span_id none = none
  span_of name span_id (some (trace_id, parent_id)) =
      some (record { trace_id = trace_id; span_id = span_id; parent_id = parent_id; name = name })

  abbrev started :
      Option ExporterSettings → String → String → Option Bytes → Bytes → Bytes → Option Span
  started none name traceparent random root span_id = none
  started (some e) name traceparent random root span_id =
      span_of name span_id (trace_of e (parse_traceparent traceparent) random root)

  -- Exporter.StartSpan, where the random bytes are those of the sampling, of the trace id and of
  -- the span id.
  unfoldable pub start_span :
      Option ExporterSettings → String → String → Option Bytes → Bytes → Bytes → Option Span
  start_span e name traceparent random root span_id = started e name traceparent random root span_id
