-- ===== src/Encoding.antt =====
-- The encoders of encoding.hpp: from messages to the bytes that go over the wire.
pub mod Binary
pub mod Itch
pub mod Digits
pub mod Fix
pub mod Factory
mod Tests
