-- ===== src/Reclamos/Tablas.antt =====
-- Rows of internal/database/gen/models.go that internal/reclamos reads and writes, and the state of
-- a transaction on them.
use consorcioabierto.Prelude.{ℕ, Option, List}
use consorcioabierto.Prelude.Text.{Text}
use consorcioabierto.Env.{Uuid}
use consorcioabierto.Reclamos.Maquina.{EstadoReclamo}

pub record Reclamo : Type 0 where
  pub tenant_id : Uuid
  pub consorcio_id : Uuid
  pub unidad_id : Uuid
  pub id : Uuid
  pub categoria : Text
  pub texto : Text
  pub estado : EstadoReclamo
  pub responsable_id : Option Uuid
  pub sla_due_at : Option ℕ
  pub created_by : Option Uuid
  pub created_at : ℕ
  pub updated_at : ℕ

pub record ReclamoMensaje : Type 0 where
  pub tenant_id : Uuid
  pub id : Uuid
  pub reclamo_id : Uuid
  pub texto : Text
  pub adjunto_id : Option Uuid
  pub created_by : Option Uuid
  pub created_at : ℕ

pub record ReclamoTransicion : Type 0 where
  pub tenant_id : Uuid
  pub id : Uuid
  pub reclamo_id : Uuid
  pub accion : Text
  pub motivo : Option Text
  pub from_estado : EstadoReclamo
  pub to_estado : EstadoReclamo
  pub responsable_id : Option Uuid
  pub created_by : Option Uuid
  pub created_at : ℕ

-- A row of another table, by its key.
pub record Clave : Type 0 where
  pub tenant_id : Uuid
  pub id : Uuid

-- The tables, with the tenant and the user of the session, the time of the database, and how many
-- identifiers it generated. Of the tables that other packages write, the keys.
pub record Tablas : Type 0 where
  pub current_tenant : Uuid
  pub current_user : Option Uuid
  pub now : ℕ
  pub generated : ℕ
  pub reclamos : List Reclamo
  pub reclamo_mensajes : List ReclamoMensaje
  pub reclamo_transiciones : List ReclamoTransicion
  pub documentos : List Clave
  pub consorcios : List Clave
  pub unidades : List Clave
  pub users : List Uuid
