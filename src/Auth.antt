-- ===== src/Auth.antt =====
-- packages/auth/eventmesh_auth: signatures of webhook bodies, and API keys.
pub mod Signature
pub mod Keys
