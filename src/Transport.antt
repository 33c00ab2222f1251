-- ===== src/Transport.antt =====
-- The transport network: src/transport-network.cpp, src/transport-network-internal.cpp and their
-- headers.
pub mod Types
pub mod Compare
pub mod Edge
pub mod Node
pub mod Network
pub mod Pointers
pub mod WellFormed
pub mod LineWellFormed
pub mod Lines
pub mod Reachable
pub mod TravelTime
pub mod Serving
pub mod Carrying
pub mod LineServes
pub mod Passengers
pub mod Ride
pub mod Loading
pub mod Reading
pub mod Search
