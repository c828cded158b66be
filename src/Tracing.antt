-- ===== src/Tracing.antt =====
-- internal/tracing: the spans of the proxied requests.
pub mod Traceparent
pub mod Exporter
