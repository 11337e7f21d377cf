-- ===== src/Rag/Query/Examples.antt =====
-- A query of the example engine.
