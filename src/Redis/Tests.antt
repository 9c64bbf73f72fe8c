-- ===== src/Redis/Tests.antt =====
-- A server and conversions that keep what the store relies on, for the tests of
-- internal/storage/redis.
pub mod Format
pub mod Log
pub mod Server
pub mod Running
pub mod Failing
