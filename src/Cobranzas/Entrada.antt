-- ===== src/Cobranzas/Entrada.antt =====
-- internal/cobranzas/cobranzas.go: what a request to register a payment must hold.
pub mod Valida
use consorcioabierto.Prelude.{Bool, Option, none, some, List, ◌||◌, not, if◌then◌else◌}
use consorcioabierto.Prelude.Int.{ℤ, pos, leb_ℤ}
use consorcioabierto.Prelude.Text.{Text, codes, text_eq, is_empty, trim_space, to_lower, to_upper}
use consorcioabierto.Prelude.Dates.{Date, parse_date, format_date}
use consorcioabierto.Action.{Result, ok, err, cobranza_invalid}
use consorcioabierto.Env.{Uuid, Env}
use consorcioabierto.Store.{Money}

pub record CobranzaInput : Type 0 where
  pub unidad_id : Text
  pub fecha : Text
  pub canal : Option Text
  pub importe : Money
  pub referencia : Option Text

pub record ValidatedCobranza : Type 0 where
  pub unidad_id : Uuid
  pub fecha : Date
  pub canal : Text
  pub importe : ℤ
  pub referencia : Option Text
  pub currency : Text

unfoldable pub valid_canal : Text → Bool
unfolding text_eq
valid_canal c =
    text_eq c (codes "efectivo")
    || text_eq c (codes "transferencia")
    || text_eq c (codes "deposito")
    || text_eq c (codes "tarjeta")
    || text_eq c (codes "cajero")
    || text_eq c (codes "mercadopago")
    || text_eq c (codes "otros")

unfoldable pub normalize_ref : Option Text → Option Text
unfolding trim_space is_empty
normalize_ref none = none
normalize_ref (some s) = if is_empty (trim_space s) then none else some (trim_space s)

-- The currency, ARS where none is named.
unfoldable pub currency_of : Text → Text
unfolding to_upper trim_space is_empty
currency_of s = let c = to_upper (trim_space s) in if is_empty c then codes "ARS" else c

or_otros : Text → Text
unfolding is_empty
or_otros c = if is_empty c then codes "otros" else c

unfoldable pub canal_of : Option Text → Text
unfolding or_otros to_lower trim_space
canal_of none = codes "otros"
canal_of (some c) = or_otros (to_lower (trim_space c))

module _ (env : Env) where
  validated : CobranzaInput → Option Uuid → Option Date → Result ValidatedCobranza
  unfolding canal_of normalize_ref currency_of
  validated i none fecha = err cobranza_invalid
  validated i (some uid) none = err cobranza_invalid
  validated i (some uid) (some fecha) = ok (record {
    unidad_id = uid;
    fecha = fecha;
    canal = canal_of i.canal;
    importe = i.importe.amount_cents;
    referencia = normalize_ref i.referencia;
    currency = currency_of i.importe.currency;
  })

  validate_rest : CobranzaInput → Date → Result ValidatedCobranza
  unfolding currency_of canal_of valid_canal trim_space validated format_date text_eq
  validate_rest i t =
      if leb_ℤ i.importe.amount_cents (pos 0)
      then err cobranza_invalid
      else if not (text_eq (currency_of i.importe.currency) (codes "ARS"))
      then err cobranza_invalid
      else if not (valid_canal (canal_of i.canal))
      then err cobranza_invalid
      else validated i (env.scan_uuid (trim_space i.unidad_id)) (env.scan_date (format_date t))

  unfoldable pub validate_cobranza_input : CobranzaInput → Result ValidatedCobranza
  unfolding validate_rest is_empty trim_space parse_date
  validate_cobranza_input i =
      if is_empty (trim_space i.unidad_id)
      then err cobranza_invalid
      else elim (parse_date (trim_space i.fecha)) [
        | none ↦ err cobranza_invalid
        | some t ↦ validate_rest i t
      ]
