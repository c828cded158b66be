-- ===== src/Examples.antt =====
-- The theorems at concrete inputs, and runs of the definitions.
mod Codec
mod Transforms
mod Platform
mod Bundles
mod Serving
mod Loaded
mod Packages
mod Operations
mod Drafting
mod Settings
