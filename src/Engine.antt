-- ===== src/Engine.antt =====
-- internal/engine: the worker pool and its background loops, a module for each part.
pub mod Retry
pub mod Config
pub mod Limits
pub mod Storage
pub mod Finalize
pub mod Worker
pub mod Coordinator
pub mod Recurring
pub mod Tests
