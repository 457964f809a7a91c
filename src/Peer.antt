-- ===== src/Peer.antt =====
-- src/main.c: the daemon's peers and what one round of its loop does with them.
pub mod State
pub mod Times
pub mod Inbound
pub mod Outbound
pub mod Timers
pub mod Tunnel
pub mod Connect
pub mod Startup
pub mod Loop
pub mod History
pub mod Wire
pub mod Sessions
pub mod Stats
