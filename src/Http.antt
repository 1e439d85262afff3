-- ===== src/Http.antt =====
-- internal/httpapi: who may use the REST interface.
pub mod Authz
