-- ===== src/Network.antt =====
-- include/network: the FIX messages.
pub mod TcpServer
pub mod Fix
pub mod MarketData
pub mod WebSocket
