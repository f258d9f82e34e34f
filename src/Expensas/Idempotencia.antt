-- ===== src/Expensas/Idempotencia.antt =====
-- internal/expensas/transiciones.go: stampIdempotency and saveIdempotency, the stored responses of
-- the operations.
use consorcioabierto.Prelude.{Option, none, some, [], ◌++◌, not, ◌==◌, if◌then◌else◌}
use consorcioabierto.Prelude.Int.{pos}
use consorcioabierto.Prelude.Text.{Text, codes, text_eq, is_empty}
use consorcioabierto.Action.{
  Action, Result, ok, err, pure, gets, lift, or_raise, raise_if, ◌>>=◌, ◌>>◌, idempotency_conflict,
  no_rows, json_error,
}
use consorcioabierto.Env.{Env}
use consorcioabierto.Store.{
  Db, LiquidacionDto, sin_estado, Json, empty_object, liquidacion_json, cobranza_json,
}
use consorcioabierto.Queries.Idempotency.{
  get_idempotency_key, insert_idempotency_key, update_idempotency_key,
}

-- The scopes of the idempotency keys.
abbrev pub scope_calcular : Text
scope_calcular = codes "expensas.calcular"

abbrev pub scope_confirmar : Text
scope_confirmar = codes "expensas.confirmar"

abbrev pub scope_publicar : Text
scope_publicar = codes "expensas.publicar"

-- The zero `LiquidacionDTO`, which `{}` decodes to.
abbrev pub zero_dto : LiquidacionDto
zero_dto = record {
  id = [];
  consorcio_id = [];
  periodo = [];
  vencimiento_1 = [];
  vencimiento_2 = none;
  estado = sin_estado;
  version = 0;
  total_gastos_cents = pos 0;
  total_distribuido_cents = pos 0;
  unidades_alcanzadas = 0;
  created_at = 0;
  updated_at = 0;
}

-- `json.Unmarshal` into a `LiquidacionDTO`. No body of a payment is stored under these scopes.
unfoldable pub unmarshal : Json → Result LiquidacionDto
unmarshal empty_object = ok zero_dto
unmarshal (liquidacion_json d) = ok d
unmarshal (cobranza_json c) = err json_error

-- What was stored under the key by the first request, if there was one.
unfoldable pub cached_response : Text → Text → Text → Action Db LiquidacionDto
unfolding get_idempotency_key text_eq unmarshal
cached_response scope idem_key request_hash = do
  found ← gets (get_idempotency_key scope idem_key)
  existing ← or_raise found no_rows
  raise_if (not (text_eq existing.request_hash request_hash)) idempotency_conflict
  lift (unmarshal existing.response_json)

unfoldable pub save_idempotency : Text → Text → LiquidacionDto → Action Db (Unit {0})
unfolding update_idempotency_key is_empty
save_idempotency scope idem_key dto =
    if is_empty idem_key
    then pure tt
    else update_idempotency_key (liquidacion_json dto) scope idem_key

-- A cached response, or what `work` does.
unfoldable pub cached_or :
    Option LiquidacionDto → Action Db LiquidacionDto → Action Db LiquidacionDto
cached_or (some dto) work = pure dto
cached_or none work = work

module _ (env : Env) where
  -- `some` is a hit.
  unfoldable pub stamp_idempotency : Text → Text → Text → Action Db (Option LiquidacionDto)
  unfolding insert_idempotency_key cached_response
  stamp_idempotency scope liquidacion_id idem_key = do
    inserted ←
        insert_idempotency_key idem_key scope
          (env.sha256_hex (liquidacion_id ++ (codes "|" ++ idem_key))) empty_object
    if inserted == 0
        then cached_response scope idem_key
            (env.sha256_hex (liquidacion_id ++ (codes "|" ++ idem_key)))
          >>= (λ dto. pure (some dto))
        else pure none

  -- The guard `if idemKey != ""` around the call.
  unfoldable pub stamp_if : Text → Text → Text → Action Db (Option LiquidacionDto)
  unfolding stamp_idempotency is_empty
  stamp_if scope liquidacion_id idem_key =
      if is_empty idem_key then pure none else stamp_idempotency scope liquidacion_id idem_key
