-- ===== src/Expensas/Transiciones/Publicada.antt =====
-- About `PublicarLiquidacion` of internal/expensas/transiciones.go, and a second call of it.
use consorcioabierto.Prelude.{◌+◌, ◌++◌, ◌∷◌, []}
use consorcioabierto.Prelude.Text.{Text, codes}
use consorcioabierto.Store.{Db, Liquidacion, OutboxEvent}
use consorcioabierto.Env.{Uuid, Env}

abbrev pub con_evento : OutboxEvent → Db → Db
con_evento e db = record db {
  outbox_events = db.outbox_events ++ e ∷ [];
  generated = db.generated + 1;
}

module _ (env : Env) where
  -- The event that a publication leaves for the worker.
  abbrev pub evento : Text → Text → Uuid → Liquidacion → Db → OutboxEvent
  evento consorcio_id id lid row db = record {
    tenant_id = db.current_tenant;
    id = env.gen_random_uuid db.generated;
    correlation_id = env.uuid_string lid;
    event_type = codes "liquidacion.publicada";
    payload = record { liquidacion_id = id; periodo = row.periodo; consorcio_id = consorcio_id };
  }
