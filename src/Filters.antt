-- ===== src/Filters.antt =====
-- The plugins of a query chain that this library models one by one.
pub mod Addresses
pub mod AddressLaws
pub mod AllowName
pub mod BlockName
pub mod BlockNameLaws
pub mod Cache
pub mod Forward
pub mod ForwardLaws
pub mod NameDecisions
pub mod Synthesized
pub mod CacheLaws
mod Tests
