-- ===== src/Queries/Idempotency.antt =====
-- internal/database/gen/idempotency.sql.go, and InsertOutboxEvent of comunicaciones.sql.go.
use consorcioabierto.Prelude.{
  ℕ, ◌+◌, Bool, Option, [], ◌∷◌, ◌++◌, ◌&&◌, ◌==◌, if◌then◌else◌, any_row, find_row, update_rows,
}
use consorcioabierto.Prelude.Text.{Text, text_eq}
use consorcioabierto.Action.{Action, ok}
use consorcioabierto.Env.{Env}
use consorcioabierto.Store.{Db, IdempotencyKey, Json, LiquidacionPayload, OutboxEvent}

abbrev pub same_key : Text → Text → Db → IdempotencyKey → Bool
same_key scope key db r =
    r.tenant_id == db.current_tenant && text_eq r.scope scope && text_eq r.idempotency_key key

unfoldable pub get_idempotency_key : Text → Text → Db → Option IdempotencyKey
unfolding find_row
get_idempotency_key scope key db = find_row (same_key scope key db) db.idempotency_keys

-- ON CONFLICT DO NOTHING: the number of rows inserted.
unfoldable pub insert_idempotency_key : Text → Text → Text → Json → Action Db ℕ
unfolding any_row
insert_idempotency_key key scope hash response db =
    if any_row (same_key scope key db) db.idempotency_keys
    then ok (0, db)
    else (let row : IdempotencyKey = record {
      tenant_id = db.current_tenant;
      idempotency_key = key;
      scope = scope;
      request_hash = hash;
      response_json = response;
    } in
        ok (1, record db { idempotency_keys = db.idempotency_keys ++ row ∷ [] }))

unfoldable pub update_idempotency_key : Json → Text → Text → Action Db (Unit {0})
unfolding update_rows
update_idempotency_key response scope key db = ok (
  tt,
  record db {
    idempotency_keys =
        update_rows (same_key scope key db) (λ r. record r { response_json = response })
          db.idempotency_keys;
  },
)

module _ (env : Env) where
  unfoldable pub insert_outbox_event : Text → Text → LiquidacionPayload → Action Db OutboxEvent
  insert_outbox_event correlation event_type payload db =
      let row : OutboxEvent = record {
        tenant_id = db.current_tenant;
        id = env.gen_random_uuid db.generated;
        correlation_id = correlation;
        event_type = event_type;
        payload = payload;
      } in
      ok (
        row,
        record db { outbox_events = db.outbox_events ++ row ∷ []; generated = db.generated + 1 },
      )
