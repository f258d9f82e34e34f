-- ===== src/Notificaciones.antt =====
-- internal/notificaciones: notices in the portal, which the worker fans out.
pub mod Tablas
pub mod Consultas
pub mod Servicio
pub mod Abanico
pub mod Lectura
pub mod Marca
