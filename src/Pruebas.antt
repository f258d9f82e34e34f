-- ===== src/Pruebas.antt =====
-- Runs of the development on concrete data: a unit of each kind, with exact rationals for float64,
-- and each theorem applied to them.
mod Fracciones
mod Datos
mod Expensas
mod Cobranzas
mod Reclamos
mod Firma
mod Identity
mod Notificaciones
mod Portal
