-- ===== src/Team.antt =====
-- internal/team: the coordination of an agent team.
pub mod TaskStore
pub mod KubeTaskStore
pub mod Stores
pub mod Router
pub mod Spawner
pub mod Lifecycle
pub mod Recovery
pub mod Samples
