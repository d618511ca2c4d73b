-- ===== src/Servers.antt =====
-- dnscrypt-proxy/serversInfo.go: the live resolvers and what is known of each.
pub mod Server
pub mod Strategy
pub mod Ranking
pub mod Order
pub mod Info
pub mod Registry
pub mod Refresh
pub mod GetOne
pub mod Picking
pub mod Feedback
pub mod Outcomes
mod Tests
