-- ===== src/Ingestion/Shards/Saved.antt =====
-- What a run over the pages of a PDF leaves behind, however it ends and wherever it began.
