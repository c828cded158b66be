-- ===== src/Bundlegen.antt =====
-- internal/bundlegen: bundles from OpenAPI documents, and drafts of transforms between versions.
pub mod Schema
pub mod Drift
