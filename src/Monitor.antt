-- ===== src/Monitor.antt =====
-- `NetworkMonitor` of inc/network-monitor/network-monitor.h.
pub mod Types
pub mod Handlers
pub mod Events
pub mod Delivery
pub mod Session
