-- ===== src/Reclamos.antt =====
-- internal/reclamos: claims of the units, their conversation, their states and their history.
pub mod Tablas
pub mod Maquina
pub mod Consultas
pub mod Servicio
pub mod Pasos
pub mod Aplicar
pub mod Refina
pub mod Historial
pub mod Llamadas
pub mod Alcance
