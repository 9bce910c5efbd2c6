-- ===== src/Claude/Runtime/Muted.antt =====
-- blemees_agent/backends/claude.py, ClaudeBackend._auth_emitted: a failed login after the first one.
