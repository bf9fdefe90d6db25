-- ===== src/Store/Effect.antt =====
-- Reasoning on transactions (src/store.rs): what an action that ends well keeps and ensures of the
-- tables.
mod Results
mod Frames
pub use Results.*
pub use Frames.*
