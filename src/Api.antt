-- ===== src/Api.antt =====
-- The custom resources of api/v1alpha1, a module for each file of types.
pub mod Meta
pub mod Common
pub mod Team
pub mod Task
pub mod Message
pub mod Session
pub mod Agent
pub mod Sandbox
pub mod Mcp
pub mod Model
