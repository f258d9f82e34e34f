-- ===== src/Notificaciones/Tablas.antt =====
-- Rows of notices (internal/database/gen/models.go) and of the tables that name their recipients, and
-- the state of a transaction on them.
use consorcioabierto.Prelude.{ℕ, Bool, Option, List}
use consorcioabierto.Prelude.Text.{Text}
use consorcioabierto.Prelude.Dates.{Date}
use consorcioabierto.Env.{Uuid}

pub record Notificacion : Type 0 where
  pub tenant_id : Uuid
  pub id : Uuid
  pub user_id : Uuid
  pub tipo : Text
  pub titulo : Text
  pub cuerpo : Text
  pub recurso_type : Text
  pub recurso_id : Option Uuid
  pub leida_at : Option ℕ
  pub created_at : ℕ

-- The columns that the recipients are found by.
pub record UnidadDe : Type 0 where
  pub tenant_id : Uuid
  pub id : Uuid
  pub consorcio_id : Uuid

pub record UnidadPersona : Type 0 where
  pub tenant_id : Uuid
  pub unidad_id : Uuid
  pub persona_id : Uuid
  pub valid_from : Date
  pub valid_to : Option Date

pub record PersonaUsuario : Type 0 where
  pub tenant_id : Uuid
  pub id : Uuid
  pub user_id : Option Uuid

-- Whether the connection is that of a role that row level security does not bind.
pub record Avisos : Type 0 where
  pub sin_politicas : Bool
  pub current_tenant : Uuid
  pub current_user : Option Uuid
  pub current_date : Date
  pub now : ℕ
  pub generated : ℕ
  pub users : List Uuid
  pub notificaciones : List Notificacion
  pub unidades : List UnidadDe
  pub unidad_personas : List UnidadPersona
  pub personas : List PersonaUsuario
