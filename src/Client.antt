-- ===== src/Client.antt =====
-- `StompClient` of inc/network-monitor/stomp-client.h.
pub mod Types
pub mod Handlers
pub mod Frames
pub mod Events
pub mod Runs
pub mod Plain
pub mod Delivery
