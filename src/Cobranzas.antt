-- ===== src/Cobranzas.antt =====
-- internal/cobranzas: payments, and how they are allocated to the charges of a unit.
pub mod Entrada
pub mod Detalle
pub mod Alta
pub mod Asignaciones
pub mod Acreditacion
pub mod Ledger
