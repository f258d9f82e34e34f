-- ===== src/Cobranzas/Alta.antt =====
-- internal/cobranzas/cobranzas.go: CreateCobranza, with its idempotency keys.
use consorcioabierto.Prelude.{
  suc, Option, none, some, List, [], ◌∷◌, ◌++◌, not, ◌==◌, if◌then◌else◌,
}
use consorcioabierto.Prelude.Int.{ℤ, pos, negsuc}
use consorcioabierto.Prelude.Text.{Text, codes, text_eq, is_empty, trim_space, digits}
use consorcioabierto.Prelude.Dates.{format_date}
use consorcioabierto.Action.{
  Action, Result, ok, err, pure, gets, lift, or_raise, raise_if, ◌>>=◌, ◌>>◌, cobranza_invalid,
  cobranza_not_found, cobranza_duplicate_referencia, idempotency_conflict, referencia_unique,
  idem_key_unique, no_rows, json_error,
}
use consorcioabierto.Env.{Uuid, Env}
use consorcioabierto.Store.{
  Db, pendiente_revision, sin_estado_pago, CobranzaDto, Json, empty_object, cobranza_json,
  liquidacion_json,
}
use consorcioabierto.Queries.Gastos.{get_unidad}
use consorcioabierto.Queries.Payments.{create_cobranza}
use consorcioabierto.Queries.Idempotency.{
  get_idempotency_key, insert_idempotency_key, update_idempotency_key,
}
use consorcioabierto.Cobranzas.Entrada.{CobranzaInput, ValidatedCobranza, validate_cobranza_input}
use consorcioabierto.Cobranzas.Detalle.{cobranza_dto}

abbrev pub scope_create : Text
scope_create = codes "cobranzas.create"

-- `fmt.Sprintf("%d", n)` of an int64, which has at most 20 digits.
unfoldable pub print_int64 : ℤ → Text
unfolding digits
print_int64 (pos n) = digits 20 n
print_int64 (negsuc n) = b'-' ∷ digits 20 (suc n)

unfoldable pub ptr_string : Option Text → Text
ptr_string none = []
ptr_string (some s) = s

-- `strings.Join(parts, "|")`
unfoldable pub join_bars : List Text → Text
join_bars [] = []
join_bars (s ∷ []) = s
join_bars (s ∷ t ∷ ts) = s ++ (b'|' ∷ join_bars (t ∷ ts))

-- The two constraints that `mapCobranzaError` names.
unfoldable pub map_cobranza_error : {A : Type 0} → Result A → Result A
map_cobranza_error (ok a) = ok a
map_cobranza_error (err e) = err (elim e [
  | referencia_unique ↦ cobranza_duplicate_referencia
  | idem_key_unique ↦ idempotency_conflict
  | other ↦ other
])

abbrev pub zero_cobranza_dto : CobranzaDto
zero_cobranza_dto = record {
  id = [];
  unidad_id = [];
  fecha = [];
  canal = [];
  importe = record { amount_cents = pos 0; currency = [] };
  referencia = none;
  estado = sin_estado_pago;
  saldo_a_favor_cents = pos 0;
  psp_provider = none;
  psp_preference_id = none;
  psp_checkout_url = none;
  created_at = 0;
}

-- `json.Unmarshal` into a `CobranzaDTO`. No settlement is stored under this scope.
unfoldable pub unmarshal_cobranza : Json → Result CobranzaDto
unmarshal_cobranza empty_object = ok zero_cobranza_dto
unmarshal_cobranza (cobranza_json d) = ok d
unmarshal_cobranza (liquidacion_json d) = err json_error

unfoldable pub cached_cobranza : Text → Text → Action Db CobranzaDto
unfolding get_idempotency_key text_eq unmarshal_cobranza
cached_cobranza idem_key hash = do
  found ← gets (get_idempotency_key scope_create idem_key)
  existing ← or_raise found no_rows
  raise_if (not (text_eq existing.request_hash hash)) idempotency_conflict
  lift (unmarshal_cobranza existing.response_json)

-- The guard `if idemKey != ""` around the call.
unfoldable pub save_if : Text → CobranzaDto → Action Db (Unit {0})
unfolding is_empty update_idempotency_key
save_if idem_key dto =
    if is_empty idem_key
    then pure tt
    else update_idempotency_key (cobranza_json dto) scope_create idem_key

module _ (env : Env) where
  unfoldable pub request_hash : Text → Text → ValidatedCobranza → Text
  unfolding join_bars print_int64 ptr_string format_date trim_space
  request_hash consorcio_id idem_key v = env.sha256_hex (
      join_bars (
        trim_space consorcio_id
        ∷ idem_key
        ∷ env.uuid_string v.unidad_id
        ∷ format_date v.fecha
        ∷ v.canal
        ∷ print_int64 v.importe
        ∷ v.currency
        ∷ ptr_string v.referencia
        ∷ []))

  -- `some` is a hit.
  unfoldable pub stamp_cobranza : Text → Text → ValidatedCobranza → Action Db (Option CobranzaDto)
  unfolding request_hash insert_idempotency_key cached_cobranza
  stamp_cobranza consorcio_id idem_key v = do
    inserted ←
        insert_idempotency_key idem_key scope_create (request_hash consorcio_id idem_key v)
          empty_object
    if inserted == 0
        then cached_cobranza idem_key (request_hash consorcio_id idem_key v)
          >>= (λ dto. pure (some dto))
        else pure none

  unfoldable pub stamp_cobranza_if :
      Text → Text → ValidatedCobranza → Action Db (Option CobranzaDto)
  unfolding stamp_cobranza is_empty
  stamp_cobranza_if consorcio_id idem_key v =
      if is_empty idem_key then pure none else stamp_cobranza consorcio_id idem_key v

  -- The insertion, and the response stored under the key.
  unfoldable pub insert_cobranza : Uuid → ValidatedCobranza → Text → Action Db CobranzaDto
  unfolding create_cobranza map_cobranza_error cobranza_dto save_if
  insert_cobranza actor v idem_key = do
    row ← λ db. map_cobranza_error (
        create_cobranza env v.unidad_id v.fecha v.canal v.importe v.referencia pendiente_revision
          idem_key actor db)
    save_if idem_key (cobranza_dto env row [])
    pure (cobranza_dto env row [])

  unfoldable pub cached_or_insert :
      Option CobranzaDto → Uuid → ValidatedCobranza → Text → Action Db CobranzaDto
  unfolding insert_cobranza
  cached_or_insert (some cached) actor v idem_key = pure cached
  cached_or_insert none actor v idem_key = insert_cobranza actor v idem_key

  unfoldable pub create : Text → Text → CobranzaInput → Text → Action Db CobranzaDto
  unfolding validate_cobranza_input get_unidad stamp_cobranza_if cached_or_insert trim_space
  create consorcio_id created_by input idem_key = do
    v ← lift (validate_cobranza_input env input)
    cid ← or_raise (env.scan_uuid (trim_space consorcio_id)) cobranza_invalid
    actor ← or_raise (env.scan_uuid (trim_space created_by)) cobranza_invalid
    found ← gets (get_unidad cid v.unidad_id)
    unidad ← or_raise found cobranza_not_found
    cached ← stamp_cobranza_if consorcio_id idem_key v
    cached_or_insert cached actor v idem_key
