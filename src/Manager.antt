-- ===== src/Manager.antt =====
-- perfkit-agent/pka-manager.c: the registry of the agent's objects. Every operation is a request of
-- some context; the ones that ask for its rights are the ones of the code.
mod Setup
mod Find
mod Change
unfoldable pub use Setup.*
unfoldable pub use Find.*
unfoldable pub use Change.*
