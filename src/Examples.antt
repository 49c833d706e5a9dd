-- ===== src/Examples.antt =====
-- Runs of the models at concrete inputs, and the parameters' instances that they use.
pub mod Types
pub mod Physical
pub mod Diagrams
pub mod Plans
pub mod Codecs
pub mod Engine
pub mod Planning
pub mod Client
pub mod Executing
pub mod Storage
pub mod Sync
pub mod Running
pub mod Serving
