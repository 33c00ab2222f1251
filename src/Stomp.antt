-- ===== src/Stomp.antt =====
-- STOMP frames: src/stomp-frame.cpp and inc/network-monitor/stomp-frame.h.
pub mod Types
pub mod Tables
pub mod Stoi
pub mod Validate
pub mod Frame
pub mod Scan
pub mod Wire
pub mod Cursor
pub mod HeaderLine
pub mod HeaderSound
pub mod HeaderBlock
pub mod BlockSound
pub mod Sections
pub mod Syntax
pub mod Accepts
pub mod Correct
pub mod View
