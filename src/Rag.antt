-- ===== src/Rag.antt =====
-- services/rag-service/src: the retrieval-augmented answering service.
pub mod Types
pub mod Events
pub mod Guard
pub mod Opa
pub mod Rerank
pub mod Retriever
pub mod Gate
pub mod Cache
pub mod Caller
pub mod Conversations
pub mod Routing
pub mod Sources
pub mod Llm
pub mod Engine
pub mod Demo
pub mod Stream
pub mod Query
mod Examples
