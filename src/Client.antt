-- ===== src/Client.antt =====
-- The client's half of the wire: the decoders of perfkit/pk-manifest.c and perfkit/pk-sample.c, and
-- what they make of the agent's bytes.
pub mod Reading
pub mod Manifest
pub mod Sample
pub mod Connection
pub mod Answers
