-- ===== src/Runtime/Graph.antt =====
-- Walks of the commit graph (src/runtime.rs): `is_descendant`, and the ids that `text_doc_at`
-- collects.
pub mod Fuel
pub mod Reaches
pub mod Descendants
