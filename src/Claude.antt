-- ===== src/Claude.antt =====
-- blemees_agent/backends/claude.py and translate_claude.py: the Claude backend.
pub mod Limiter
pub mod Options
pub mod Runtime
pub mod Translate
