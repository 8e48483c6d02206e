-- ===== src/Loader.antt =====
-- crates/mehoy-runtime/src/loader.rs: a model that is loaded, its admission of requests, how each
-- request ends, and its teardown.
pub mod Model
pub mod Loading
pub mod Checks
pub mod Loads
pub mod Requests
pub mod Unloading
pub mod Ownership
pub mod Stopping
pub mod Draining
pub mod Answers
pub mod Admission
mod Tests
mod LoadTests
