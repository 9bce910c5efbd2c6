-- ===== src/Codex.antt =====
-- blemees_agent/backends/codex.py and translate_codex.py: the Codex backend.
pub mod Events
pub mod Items
pub mod Options
pub mod Results
pub mod Runtime
pub mod Translate
