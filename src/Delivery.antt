-- ===== src/Delivery.antt =====
-- Two connections and the network between them: what TCPConnection
-- (minitcp/net/tcp/connection.py) promises to its users.
pub mod Genuine
pub mod Outgoing
pub mod Sending
pub mod Acking
pub mod Receiving
pub mod Fresh
pub mod Handshake
pub mod Phases
pub mod Arrivals
pub mod Resending
pub mod Ticking
pub mod Using
pub mod System
pub mod Starting
pub mod Acting
pub mod Conversing
pub mod EndToEnd
