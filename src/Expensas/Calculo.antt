-- ===== src/Expensas/Calculo.antt =====
-- internal/expensas/calculo.go: the distribution of the expenses over the units of a building by
-- coefficient. int64 amounts wrap around; float64 is the parameter `f`.
pub mod Sum
pub mod Total
pub mod Shares
use consorcioabierto.Prelude.{
  ℕ, ◌+◌, Bool, true, false, List, [], ◌∷◌, ◌++◌, map, ◌||◌, if◌then◌else◌, select, count_rows,
}
use consorcioabierto.Prelude.Int.{ℤ, pos, ltb_ℤ, leb_ℤ}
use consorcioabierto.Prelude.Int64.{add64, sub64}
use consorcioabierto.Prelude.Text.{Text, codes, text_ltb}
use consorcioabierto.Prelude.Sort.{sort_by}
use consorcioabierto.Action.{Result, ok, err, calculo_vacio, calculo_sin_ufs, calculo_sin_coef_cero}
use consorcioabierto.Env.{Floats}

pub record ConceptoCalculo : Type 0 where
  pub concepto_id : Text
  pub regla : Text
  pub importe_cents : ℤ

pub record UfCoef (Float : Type 0) : Type 0 where
  pub unidad_id : Text
  pub codigo : Text
  pub coeficiente : Float

pub record UnidadItem : Type 0 where
  pub concepto_id : Text
  pub importe_cents : ℤ

pub record UnidadDistribucion (Float : Type 0) : Type 0 where
  pub unidad_id : Text
  pub codigo : Text
  pub coeficiente : Float
  pub total_cents : ℤ
  pub items : List UnidadItem

-- `Items` are the concepts themselves, `ItemDistribucion(c)`.
pub record DistribucionResult (Float : Type 0) : Type 0 where
  pub items : List ConceptoCalculo
  pub unidades : List (UnidadDistribucion Float)
  pub total_gastos_cents : ℤ
  pub total_distribuido_cents : ℤ
  pub diferencia_cents : ℤ
  pub unidades_alcanzadas : ℕ
  pub advertencias : List Text

-- `Items[len(Items)-1].ImporteCents += amount`. The slice is never empty there.
unfoldable pub add_to_last : ℤ → List UnidadItem → List UnidadItem
add_to_last amount [] = []
add_to_last amount (i ∷ []) = record i { importe_cents = add64 i.importe_cents amount } ∷ []
add_to_last amount (i ∷ j ∷ is) = i ∷ add_to_last amount (j ∷ is)

module _ (f : Floats) where
  open f use {Float}

  unfoldable pub codigo_less : UfCoef Float → UfCoef Float → Bool
  unfolding text_ltb
  codigo_less a b = text_ltb a.codigo b.codigo

  -- `coefTotal`, summed from the left
  unfoldable pub coef_total : Float → List (UfCoef Float) → Float
  coef_total acc [] = acc
  coef_total acc (u ∷ us) = coef_total (f.add acc u.coeficiente) us

  abbrev pub new_unidad : UfCoef Float → UnidadDistribucion Float
  new_unidad u = record {
    unidad_id = u.unidad_id;
    codigo = u.codigo;
    coeficiente = u.coeficiente;
    total_cents = pos 0;
    items = [];
  }

  advertencias_of : List (UfCoef Float) → List Text
  unfolding select
  advertencias_of us =
      map (λ u. codes "UF " ++ (u.codigo ++ codes " tiene coeficiente 0, sin reparto"))
        (select (λ u. f.eq u.coeficiente f.zero) us)

  -- The rounded share of a unit, held between 0 and what remains.
  unfoldable pub share : Float → ℤ → ℤ → Float → ℤ
  share total importe remain coef =
      let exact = f.mul (f.from_int64 importe) (f.div coef total) in
      let rounded = f.round_int64 exact in
      let floored : ℤ = if ltb_ℤ rounded (pos 0) then pos 0 else rounded in
      if ltb_ℤ remain floored then remain else floored

  abbrev pub add_item : Text → ℤ → UnidadDistribucion Float → UnidadDistribucion Float
  add_item concepto rounded u = record u {
    total_cents = add64 u.total_cents rounded;
    items = u.items ++ record { concepto_id = concepto; importe_cents = rounded } ∷ [];
  }

  -- The loop over the units for one concept, and what remains after it. A unit carries the
  -- coefficient of the sorted `UFCoef` that it was made from.
  unfoldable pub repartir :
      Float
      → ConceptoCalculo
      → ℤ
      → List (UnidadDistribucion Float)
      → List (UnidadDistribucion Float) × ℤ
  unfolding share
  repartir total c remain [] = ([], remain)
  repartir total c remain (u ∷ us) =
      let skip = f.eq total f.zero || f.eq u.coeficiente f.zero in
      let rounded = share total c.importe_cents remain u.coeficiente in
      let (us', left) = repartir total c (if skip then remain else sub64 remain rounded) us in
      ((if skip then u else add_item c.concepto_id rounded u) ∷ us', left)

  -- The residue goes to the first unit with a positive coefficient.
  unfoldable pub residuo : ℤ → List (UnidadDistribucion Float) → List (UnidadDistribucion Float)
  unfolding add_to_last
  residuo remain [] = []
  residuo remain (u ∷ us) =
      let rest = residuo remain us in
      if leb_ℤ remain (pos 0)
      then u ∷ us
      else if f.lt f.zero u.coeficiente
      then record u { total_cents = add64 u.total_cents remain; items = add_to_last remain u.items }
        ∷ us
      else u ∷ rest

  unfoldable pub distribuir_concepto :
      Float → ConceptoCalculo → List (UnidadDistribucion Float) → List (UnidadDistribucion Float)
  unfolding repartir residuo
  distribuir_concepto total c us =
      let (us', left) = repartir total c c.importe_cents us in residuo left us'

  unfoldable pub distribuir_conceptos :
      Float
      → List ConceptoCalculo
      → List (UnidadDistribucion Float)
      → List (UnidadDistribucion Float)
  unfolding distribuir_concepto
  distribuir_conceptos total [] us = us
  distribuir_conceptos total (c ∷ cs) us =
      distribuir_conceptos total cs (distribuir_concepto total c us)

  unfoldable pub total_gastos : ℤ → List ConceptoCalculo → ℤ
  total_gastos acc [] = acc
  total_gastos acc (c ∷ cs) = total_gastos (add64 acc c.importe_cents) cs

  unfoldable pub total_distribuido : ℤ → List (UnidadDistribucion Float) → ℤ
  total_distribuido acc [] = acc
  total_distribuido acc (u ∷ us) = total_distribuido (add64 acc u.total_cents) us

  unfoldable pub result_of :
      List ConceptoCalculo → List (UfCoef Float) → Float → DistribucionResult Float
  unfolding distribuir_conceptos total_gastos total_distribuido advertencias_of count_rows
  result_of cs sorted total =
      let us = distribuir_conceptos total cs (map new_unidad sorted) in
      let gastos = total_gastos (pos 0) cs in
      let distribuido = total_distribuido (pos 0) us in
      record {
        items = cs;
        unidades = us;
        total_gastos_cents = gastos;
        total_distribuido_cents = distribuido;
        diferencia_cents = sub64 gastos distribuido;
        unidades_alcanzadas = count_rows (λ u. ltb_ℤ (pos 0) u.total_cents) us;
        advertencias = advertencias_of sorted;
      }

  unfoldable pub distribuir :
      List ConceptoCalculo → List (UfCoef Float) → Result (DistribucionResult Float)
  unfolding codigo_less coef_total result_of sort_by
  distribuir [] ufs = err calculo_vacio
  distribuir (c ∷ cs) [] = err calculo_sin_ufs
  distribuir (c ∷ cs) (u ∷ ufs) =
      let sorted = sort_by codigo_less (u ∷ ufs) in
      let total = coef_total f.zero sorted in
      if f.le total f.zero then err calculo_sin_coef_cero else ok (result_of (c ∷ cs) sorted total)
