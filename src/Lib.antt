-- ===== src/Lib.antt =====
-- The core of ConsorcioAbierto: the settlement of the expenses of a building (internal/expensas), the
-- ledger of charges and entries of its units (internal/cuenta_corriente), the payments that are
-- allocated to the charges (internal/cobranzas), the claims of its owners (internal/reclamos), the
-- notices that they get (internal/notificaciones), and sessions and permissions (internal/identity).
--
-- The program is a server in Go over PostgreSQL. A settlement (`liquidacion`) is created for a month,
-- calculated from the expenses of that month, confirmed, which charges the units, and published,
-- which leaves an event for the worker of internal/outbox; until it is published it can be annulled,
-- which reverses its charges. Payments are registered, credited against the open charges of their
-- unit, adjusted and reverted. Operations that may be retried store their response under an
-- idempotency key. A claim moves between four states and keeps its history. A publication makes one
-- notice for each user with a current tie to the building. A login opens a session with a refresh
-- token, which is replaced each time it is used; an access token names a membership, whose roles give
-- the permissions.
--
-- Files:
-- - Prelude: tests, lists, tables as lists (Lists, Rows), integers and int64 with its wrap-around
--   (Int, Int64), sorting, strings as code points (Text) and dates (Dates).
-- - Action: results, errors, and calls that read and change a state.
-- - Env: what comes from outside the repository, that is pgx identifiers and dates, SHA-256,
--   generated identifiers and float64, as parameters with the facts that are relied on.
-- - Store: the rows of internal/database/gen/models.go and the state of a transaction, `Db`.
-- - Queries: the statements of internal/database/gen/*.sql.go that the modelled code calls, with the
--   constraints of db/migrations that they can violate: one function for each statement.
-- - Expensas: internal/expensas. Calculo is calculo.go, Liquidacion is liquidacion.go, and Agrupar,
--   Idempotencia and Transiciones are transiciones.go.
-- - CuentaCorriente: internal/cuenta_corriente/cuenta_corriente.go.
-- - Cobranzas: internal/cobranzas. Entrada, Detalle and Alta are cobranzas.go, Asignaciones and
--   Acreditacion are acreditacion.go, and Ledger is ledger.go.
-- - Reclamos: internal/reclamos/reclamos.go. Maquina is the diagram, Servicio the calls, Tablas and
--   Consultas the rows and internal/database/gen/reclamos.sql.go; Pasos, Aplicar, Refina, Historial,
--   Llamadas and Alcance are about them.
-- - Identity: internal/identity. Permisos and Cache are permissions.go and permissions_cache.go; Jwt
--   is jwt.go, Tokens what signs tokens, Membresias and Sesiones are auth.go, and Mfa is mfa.go; Tablas and
--   Consultas are the rows, internal/database/gen/identity.sql.go, attempts.go and SetUser of
--   internal/tenancy/rls.go.
-- - Notificaciones: internal/notificaciones/notificaciones.go, with
--   internal/database/gen/notificaciones.sql.go.
-- - Portal: internal/portal/reclamos.go, with ListUnidadesForCurrentUser of
--   internal/database/gen/ufs.sql.go.
-- - Pruebas: concrete data, runs and applications of the theorems.
--
-- Correspondence: a Go function that takes `*db.Queries` is an `Action Db`, a function from the tables
-- to an error or to its result and the tables after it. An error carries no tables, since the
-- handlers of apps/api/transport/http roll the transaction back at the first error. A `SELECT` is a
-- filter and a stable sort of the list of rows, and an `UPDATE` maps the rows that fit. Row level
-- security is the test on `current_tenant` that every statement makes, and on `current_user` for
-- sessions and notices. Loops are structural
-- recursions. In internal/identity a call that fails may leave changes, such as a recorded attempt or
-- a family that was revoked: there a call is an `Op`, which gives the state back with an error too, and
-- `en_tx` puts the tables back where its transaction fails. The clock is read once for each call.
-- Only the printing of numbers runs on fuel, 20 digits, which is enough for int64.
-- Amounts are int64 and wrap around in `add64` and `sub64`; float64 is a parameter.
--
-- Bounds: versions and counts are natural numbers, an expected version that is negative is left out,
-- and counts stay below 2 ^ 31. Times are natural numbers with 0 for the zero time, and count seconds
-- in internal/identity. Upper and lower
-- case are exact for the texts that are compared with ASCII words. A stored response is kept as the
-- value that was marshalled.
--
-- Not modelled: HTTP handlers, the web application, the worker, imports, documents, Mercado Pago, and
-- receipts in PDF, which are mostly I/O or do not touch these tables. Passwords, codes of the second
-- factor, random tokens, and the base64, JSON and RSA that a token is made with are parameters
-- (`Cripto`). Calls of internal/identity do not overlap.
pub mod Prelude
pub mod Action
pub mod Env
pub mod Store
pub mod Queries
pub mod Expensas
pub mod CuentaCorriente
pub mod Cobranzas
pub mod Reclamos
pub mod Identity
pub mod Notificaciones
pub mod Portal
pub mod Pruebas
