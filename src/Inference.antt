-- ===== src/Inference.antt =====
-- crates/mehoy-core/src/inference.rs: the tasks that a backend performs, in three parts: embeddings
-- and what makes a response usable, the parameters and the result of a generation, and the stream
-- of events between the task that reads a backend and whoever consumes it.
pub mod Float
pub mod Embedding
pub mod Generation
pub mod Stream
