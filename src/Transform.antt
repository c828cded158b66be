-- ===== src/Transform.antt =====
-- internal/transform: the mechanical transforms of JSON bodies.
pub mod Path
pub mod Walk
pub mod Apply
