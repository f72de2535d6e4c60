-- ===== src/Sync.antt =====
-- The client and the server together: what the one sends, and what the other makes of it.
pub mod Request
pub mod Reply
pub mod Stream
pub mod Event
pub mod Journey
