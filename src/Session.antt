-- ===== src/Session.antt =====
-- include/session.h and src/session.c: the handshake and the data channel of one peer.
pub mod State
pub mod Window
pub mod Replay
pub mod Handshake
pub mod Channel
pub mod Trace
pub mod Lifecycle
pub mod Bounds
