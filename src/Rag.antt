-- ===== src/Rag.antt =====
-- src/eset_incident_ai/rag
pub mod Chunker
pub mod Reranker
pub mod Indexer
pub mod FileLoader
pub mod Embedder
