-- ===== src/Identity/Permisos/Lectura.antt =====
-- Roles that only read.
use mathlib.Core.Path.{subst}
use consorcioabierto.Prelude.{
  Bool, true, false, ◌&&◌, ◌||◌, List, [], ◌∷◌, ◌≡◌, refl, sym, ◌∙◌, inl, inr, Bool-cases, any_row,
  if◌then◌else◌,
}
use consorcioabierto.Prelude.Text.{Text, codes, text_eq, text_eq_sound}
use consorcioabierto.Identity.Permisos.{
  platform_admin, tenant_admin, consorcio_admin, tesorero, role_permissions, permissions_for_roles,
  auditor, consorcista,
}
use consorcioabierto.Identity.Permisos.Union.{tiene, alguno_otorga, permissions_for_roles-union}

-- A permission whose name ends in `.read`.
unfoldable pub es_lectura : Text → Bool
unfolding text_eq
es_lectura [] = false
es_lectura (c ∷ s) = text_eq (c ∷ s) (codes ".read") || es_lectura s

-- The roles that may write.
unfoldable pub es_gestor : Text → Bool
unfolding text_eq
es_gestor r =
    text_eq r (codes "platform_admin")
    || text_eq r (codes "tenant_admin")
    || text_eq r (codes "consorcio_admin")
    || text_eq r (codes "tesorero")

todas_lectura : List Text → Bool
unfolding es_lectura
todas_lectura [] = true
todas_lectura (p ∷ ps) = es_lectura p && todas_lectura ps

lectura_de :
    (p : Text) (xs : List Text) → todas_lectura xs ≡ true → tiene p xs ≡ true → es_lectura p ≡ true
unfolding todas_lectura any_row
lectura_de p [] h t = cc
lectura_de p (x ∷ xs) h t = elim (Bool-cases (es_lectura x)) [
  | inl lee ↦ elim (Bool-cases (text_eq p x)) [
    | inl igual ↦ subst (λ y. es_lectura y ≡ true) (sym (text_eq_sound p x igual)) lee
    | inr otra ↦ lectura_de p xs (rw lee at h) (rw otra at t)
  ]
  | inr escribe ↦ cc (rw escribe at h)
]

auditor-lectura : todas_lectura auditor ≡ true
unfolding todas_lectura es_lectura
auditor-lectura = refl

consorcista-lectura : todas_lectura consorcista ≡ true
unfolding todas_lectura es_lectura
consorcista-lectura = refl

-- The role is none of the first four.
otra_rama :
    (a b c d e f : Bool) (as₁ bs cs ds es fs : List Text)
    → a || b || c || d ≡ false
    → todas_lectura es ≡ true
    → todas_lectura fs ≡ true
    → todas_lectura (
        if a
        then as₁
        else if b
        then bs
        else if c
        then cs
        else if d
        then ds
        else if e
        then es
        else if f
        then fs
        else [])
      ≡ true
unfolding todas_lectura
otra_rama true b c d e f as₁ bs cs ds es fs h p q = cc
otra_rama false true c d e f as₁ bs cs ds es fs h p q = cc
otra_rama false false true d e f as₁ bs cs ds es fs h p q = cc
otra_rama false false false true e f as₁ bs cs ds es fs h p q = cc
otra_rama false false false false true f as₁ bs cs ds es fs h p q = p
otra_rama false false false false false true as₁ bs cs ds es fs h p q = q
otra_rama false false false false false false as₁ bs cs ds es fs h p q = refl

otro_rol : (r : Text) → es_gestor r ≡ false → todas_lectura (role_permissions r) ≡ true
unfolding es_gestor role_permissions
otro_rol r h =
    otra_rama (text_eq r (codes "platform_admin")) (text_eq r (codes "tenant_admin"))
      (text_eq r (codes "consorcio_admin")) (text_eq r (codes "tesorero"))
      (text_eq r (codes "auditor")) (text_eq r (codes "consorcista")) platform_admin tenant_admin
      consorcio_admin tesorero auditor consorcista h auditor-lectura consorcista-lectura

gestor_otorga :
    (roles : List Text) (p : Text)
    → alguno_otorga p roles ≡ true
    → es_lectura p ≡ false
    → any_row es_gestor roles ≡ true
unfolding any_row
gestor_otorga [] p h e = cc
gestor_otorga (r ∷ rs) p h e = elim (Bool-cases (es_gestor r)) [
  | inl gestor ↦ rw gestor refl
  | inr otro ↦ elim (Bool-cases (tiene p (role_permissions r))) [
    | inl otorga ↦ cc (lectura_de p (role_permissions r) (otro_rol r otro) otorga, e)
    | inr ninguno ↦ rw otro (gestor_otorga rs p (rw ninguno at h) e)
  ]
]

-- Where a permission that is not to read is granted, some role of the list is a manager's: an
-- auditor, an owner and an unknown role only read, in any combination.
pub escritura_exige_gestor :
    (roles : List Text) (p : Text)
    → tiene p (permissions_for_roles roles) ≡ true
    → es_lectura p ≡ false
    → any_row es_gestor roles ≡ true
escritura_exige_gestor roles p h e =
    gestor_otorga roles p (sym ((permissions_for_roles-union roles p).0) ∙ h) e
