-- ===== src/WebSocket.antt =====
-- `WebSocketClient` of inc/network-monitor/websocket-client.h.
pub mod Types
pub mod Client
pub mod World
pub mod Reports
pub mod Connections
pub mod Losses
