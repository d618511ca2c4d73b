-- ===== src/Packet.antt =====
-- The bytes of DNS packets on their way: padding, framing and times to live.
pub mod Padding
pub mod PaddingLaws
pub mod Ttl
pub mod TtlLaws
mod Tests
