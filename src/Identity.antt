-- ===== src/Identity.antt =====
-- internal/identity: permissions of the roles, the cache of memberships, sessions and tokens.
pub mod Permisos
pub mod Cache
pub mod Op
pub mod Tablas
pub mod Consultas
pub mod Jwt
pub mod Tokens
pub mod Membresias
pub mod Sesiones
pub mod Mfa
pub mod Uso
pub mod Rotacion
pub mod Firma
