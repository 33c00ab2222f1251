-- ===== src/Tests.antt =====
-- Tests on inputs of the repository's own tests, and an instance of each property that has
-- hypotheses.
mod Frames
pub mod Networks
mod Downloads
mod Routes
pub mod Searches
pub mod Layouts
pub mod Servers
pub mod Sessions
mod Sockets
mod Stacks
