-- ===== src/Api.antt =====
-- packages/api/src: the streams of server-sent events.
pub mod Stream
pub mod Broadcaster
mod Tests
mod ListenTests
