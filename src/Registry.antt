-- ===== src/Registry.antt =====
-- What the requests of the clients do to the agent as a whole: its registry, and the objects.
pub mod Fixed
pub mod Driven
pub mod Lookup
pub mod Refused
pub mod Commands
pub mod Refines
pub mod Consistent
pub mod Kept
pub mod Left
pub mod Born
pub mod Begun
pub mod Ended
pub mod Growth
pub mod Reach
