-- ===== src/Tests.antt =====
-- Concrete kernels and states, runs of the code on them, and each theorem at an input that meets
-- its hypotheses.
pub mod Examples
pub mod Runtime
pub mod Startup
pub mod Embedding
pub mod Launching
pub mod Sessions
pub mod Hooks
pub mod Tunnels
pub mod Programs
