-- ===== src/Hooks/Tests.antt =====
-- The screen and the redaction at concrete content.
