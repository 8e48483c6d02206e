-- ===== src/Backend.antt =====
-- crates/mehoy-backend-llama: a backend that the runtime starts, and what it asks of it.
pub mod Channel
pub mod Secrecy
pub mod Health
pub mod Embed
pub mod Identity
pub mod Launch
pub mod Surroundings
pub mod Running
pub mod Waiting
pub mod Starting
pub mod Tests
