-- ===== src/Admission.antt =====
-- internal/discovery: the admission webhooks, on the decoded objects.
pub mod Checks
pub mod Agents
pub mod Teams
pub mod Configs
pub mod Samples
mod Tests
