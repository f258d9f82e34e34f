-- ===== src/Expensas.antt =====
-- internal/expensas: the settlement of the expenses of a building for a month.
pub mod Calculo
pub mod Liquidacion
pub mod Agrupar
pub mod Idempotencia
pub mod Transiciones
