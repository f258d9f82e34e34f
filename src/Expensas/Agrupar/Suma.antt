-- ===== src/Expensas/Agrupar/Suma.antt =====
-- Grouping by concept keeps the total, and names each concept once.
use consorcioabierto.Prelude.{
  ◌≡◌, refl, sym, ap, ◌∙◌, inl, inr, false, List, [], ◌∷◌, Bool-cases, All,
}
use consorcioabierto.Prelude.Int.{+ℤ-zero, zero-+ℤ, ℤ, pos, ◌+ℤ◌}
use consorcioabierto.Prelude.Int64.{bits, bits_laws}
use consorcioabierto.Prelude.Text.{Text, text_eq, text_eq_sound, text_eq_refl}
use consorcioabierto.Env.{Env}
use consorcioabierto.Store.{Gasto}
use consorcioabierto.Expensas.Calculo.{ConceptoCalculo}
use consorcioabierto.Expensas.Calculo.Total.{sum_importes}
use consorcioabierto.Expensas.Agrupar.{agregar, agrupar_en, agrupar_conceptos}

-- The exact sum of the amounts of the expenses.
abbrev pub sum_gastos : List Gasto → ℤ
sum_gastos [] = pos 0
sum_gastos (g ∷ gs) = g.importe_cents +ℤ sum_gastos gs

-- The concept is not the one of the key.
abbrev pub IsOther : Text → ConceptoCalculo → Type 0
IsOther key c = text_eq c.concepto_id key ≡ false

-- No two concepts of the list are the same.
abbrev pub NoRepeats : List ConceptoCalculo → Type 0
NoRepeats [] = Unit {0}
NoRepeats (c ∷ cs) = All (λ d. IsOther c.concepto_id d) cs × NoRepeats cs

agregar-bits :
    (key : Text) (importe : ℤ) (cs : List ConceptoCalculo)
    → bits (sum_importes (agregar key importe cs)) ≡ bits (sum_importes cs +ℤ importe)
unfolding agregar
agregar-bits key importe [] = omega bits_laws
agregar-bits key importe (c ∷ cs) = elim (Bool-cases (text_eq c.concepto_id key)) [
  | inl same ↦ rw same (omega bits_laws)
  | inr other ↦ rw other (omega (bits_laws, agregar-bits key importe cs))
]

All-agregar :
    (k key : Text) (importe : ℤ) (cs : List ConceptoCalculo)
    → text_eq key k ≡ false
    → All (IsOther k) cs
    → All (IsOther k) (agregar key importe cs)
unfolding agregar
All-agregar k key importe [] e h = (e, tt)
All-agregar k key importe (c ∷ cs) e h = elim (Bool-cases (text_eq c.concepto_id key)) [
  | inl same ↦ rw same (h.0, h.1)
  | inr other ↦ rw other (h.0, All-agregar k key importe cs e h.1)
]

other_sym : (s t : Text) → text_eq s t ≡ false → text_eq t s ≡ false
other_sym s t h = elim (Bool-cases (text_eq t s)) [
  | inl same ↦
      same ∙ (sym (text_eq_refl s) ∙ (ap (λ x. text_eq s x) (sym (text_eq_sound t s same)) ∙ h))
  | inr other ↦ other
]

agregar-NoRepeats :
    (key : Text) (importe : ℤ) (cs : List ConceptoCalculo)
    → NoRepeats cs
    → NoRepeats (agregar key importe cs)
unfolding agregar
agregar-NoRepeats key importe [] h = (tt, tt)
agregar-NoRepeats key importe (c ∷ cs) h = elim (Bool-cases (text_eq c.concepto_id key)) [
  | inl same ↦ rw same (h.0, h.1)
  | inr other ↦ rw other (
    All-agregar c.concepto_id key importe cs (other_sym c.concepto_id key other) h.0,
    agregar-NoRepeats key importe cs h.1,
  )
]

module _ (env : Env) where
  agrupar_en-bits :
      (out : List ConceptoCalculo) (gs : List Gasto)
      → bits (sum_importes (agrupar_en env out gs)) ≡ bits (sum_importes out +ℤ sum_gastos gs)
  unfolding agrupar_en
  agrupar_en-bits out [] = rw +ℤ-zero refl
  agrupar_en-bits out (g ∷ gs) =
      let key = env.uuid_string g.concepto_id in
      omega (
        bits_laws,
        agrupar_en-bits (agregar key g.importe_cents out) gs,
        agregar-bits key g.importe_cents out,
      )

  agrupar_en-NoRepeats :
      (out : List ConceptoCalculo) (gs : List Gasto)
      → NoRepeats out
      → NoRepeats (agrupar_en env out gs)
  unfolding agrupar_en
  agrupar_en-NoRepeats out [] h = h
  agrupar_en-NoRepeats out (g ∷ gs) h =
      agrupar_en-NoRepeats (agregar (env.uuid_string g.concepto_id) g.importe_cents out) gs
        (agregar-NoRepeats (env.uuid_string g.concepto_id) g.importe_cents out h)

  -- Grouping expenses by concept keeps their total, modulo 2 ^ 64, and no two groups have the same
  -- concept.
  pub agrupar_conserva :
      (gs : List Gasto)
      → (bits (sum_importes (agrupar_conceptos env gs)) ≡ bits (sum_gastos gs))
        × NoRepeats (agrupar_conceptos env gs)
  unfolding agrupar_conceptos
  agrupar_conserva gs =
      (agrupar_en-bits [] gs ∙ ap bits (zero-+ℤ (sum_gastos gs)), agrupar_en-NoRepeats [] gs tt)
