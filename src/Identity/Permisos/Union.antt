-- ===== src/Identity/Permisos/Union.antt =====
-- The permissions of several roles are the union of theirs, each once.
use consorcioabierto.Prelude.{
  ℕ, ◌+◌, ◌≤◌, Bool, true, false, ◌||◌, List, [], ◌∷◌, ◌++◌, ◌≡◌, refl, sym, ap, ◌∙◌, inl, inr,
  arith, Bool-cases, any_row, count_rows, if◌then◌else◌,
}
use mathlib.Core.Path.{subst}
use consorcioabierto.Prelude.Text.{Text, text_eq, text_eq_sound}
use consorcioabierto.Identity.Permisos.{
  Vistos, role_permissions, add_permission, add_permissions, add_roles, permissions_for_roles,
}

-- Whether a list of texts has one, and how often.
abbrev pub tiene : Text → List Text → Bool
tiene p = any_row (text_eq p)

abbrev pub veces : Text → List Text → ℕ
veces p = count_rows (text_eq p)

or_false : (b : Bool) → b || false ≡ b
or_false true = refl
or_false false = refl

or_assoc : (a b c : Bool) → (a || b) || c ≡ a || (b || c)
or_assoc true b c = refl
or_assoc false b c = refl

or_mid : (a b : Bool) → b ≡ true → a || b ≡ true
or_mid true b h = refl
or_mid false b h = h

tiene-append :
    (p : Text) (xs : List Text) (q : Text) → tiene p (xs ++ q ∷ []) ≡ tiene p xs || text_eq p q
unfolding any_row
tiene-append p [] q = or_false (text_eq p q)
tiene-append p (x ∷ xs) q =
    ap (λ b. text_eq p x || b) (tiene-append p xs q)
    ∙ sym (or_assoc (text_eq p x) (tiene p xs) (text_eq p q))

veces-append :
    (p : Text) (xs : List Text) (q : Text)
    → veces p (xs ++ q ∷ []) ≡ veces p xs + (if text_eq p q then 1 else 0)
unfolding count_rows
veces-append p [] q = omega arith
veces-append p (x ∷ xs) q = omega (arith, veces-append p xs q)

veces_cero : (p : Text) (xs : List Text) → tiene p xs ≡ false → veces p xs ≡ 0
unfolding any_row count_rows
veces_cero p [] h = refl
veces_cero p (x ∷ xs) h = ground (arith, veces_cero p xs)

-- What was seen is what was put out, and each permission once.
record IsVistos (v : Vistos) : Type 0 where
  mismos : (p : Text) → tiene p v.seen ≡ tiene p v.out
  una_vez : (p : Text) → veces p v.out ≤ 1

or_comm : (a b : Bool) → a || b ≡ b || a
or_comm true true = refl
or_comm true false = refl
or_comm false true = refl
or_comm false false = refl

absorbe : (p q : Text) (xs : List Text) → tiene q xs ≡ true → tiene p xs ≡ tiene p xs || text_eq p q
absorbe p q xs h = elim (Bool-cases (text_eq p q)) [
  | inl igual ↦
      let esta : tiene p xs ≡ true =
        subst (λ x. tiene x xs ≡ true) (sym (text_eq_sound p q igual)) h in
      esta ∙ sym (ap (λ b. b || text_eq p q) esta)
  | inr otra ↦ rw otra (sym (or_false (tiene p xs)))
]

agregada :
    (p q : Text) (xs : List Text) → veces p xs ≤ 1 → tiene q xs ≡ false → veces p (xs ++ q ∷ []) ≤ 1
agregada p q xs h falta = elim (Bool-cases (text_eq p q)) [
  | inl igual ↦
      let cero : veces p xs ≡ 0 =
        subst (λ x. veces x xs ≡ 0) (sym (text_eq_sound p q igual)) (veces_cero q xs falta) in
      let una : veces p (xs ++ q ∷ []) ≡ veces p xs + 1 = veces-append p xs q ∙ rw igual refl in
      omega (arith, una, cero)
  | inr otra ↦
      let igual : veces p (xs ++ q ∷ []) ≡ veces p xs + 0 = veces-append p xs q ∙ rw otra refl in
      omega (arith, igual, h)
]

-- A permission added is there from then on, and the others are as they were.
add_permission-tiene :
    (v : Vistos) (q : Text)
    → IsVistos v
    → IsVistos (add_permission v q)
      × ((p : Text) → tiene p (add_permission v q).out ≡ tiene p v.out || text_eq p q)
unfolding add_permission
add_permission-tiene v q i = elim (Bool-cases (tiene q v.seen)) [
  | inl visto ↦ rw visto (i, λ p. absorbe p q v.out (sym (i.mismos q) ∙ visto))
  | inr nuevo ↦ rw nuevo (
    record {
      mismos = λ p.
          or_comm (text_eq p q) (tiene p v.seen)
          ∙ (ap (λ b. b || text_eq p q) (i.mismos p) ∙ sym (tiene-append p v.out q));
      una_vez = λ p. agregada p q v.out (i.una_vez p) (sym (i.mismos q) ∙ nuevo);
    },
    λ p. tiene-append p v.out q,
  )
]

add_permissions-tiene :
    (v : Vistos) (qs : List Text)
    → IsVistos v
    → IsVistos (add_permissions v qs)
      × ((p : Text) → tiene p (add_permissions v qs).out ≡ tiene p v.out || tiene p qs)
unfolding add_permissions any_row
add_permissions-tiene v [] i = (i, λ p. sym (or_false (tiene p v.out)))
add_permissions-tiene v (q ∷ qs) i =
    let (i₁, e₁) = add_permission-tiene v q i in
    let (i₂, e₂) = add_permissions-tiene (add_permission v q) qs i₁ in
    (
      i₂,
      λ p.
          e₂ p
          ∙ (ap (λ b. b || tiene p qs) (e₁ p)
              ∙ or_assoc (tiene p v.out) (text_eq p q) (tiene p qs)),
    )

-- Some role of a list grants a permission.
abbrev pub alguno_otorga : Text → List Text → Bool
alguno_otorga p = any_row (λ r. tiene p (role_permissions r))

add_roles-tiene :
    (v : Vistos) (rs : List Text)
    → IsVistos v
    → IsVistos (add_roles v rs)
      × ((p : Text) → tiene p (add_roles v rs).out ≡ tiene p v.out || alguno_otorga p rs)
unfolding add_roles any_row
add_roles-tiene v [] i = (i, λ p. sym (or_false (tiene p v.out)))
add_roles-tiene v (r ∷ rs) i =
    let (i₁, e₁) = add_permissions-tiene v (role_permissions r) i in
    let (i₂, e₂) = add_roles-tiene (add_permissions v (role_permissions r)) rs i₁ in
    (
      i₂,
      λ p.
          e₂ p
          ∙ (ap (λ b. b || alguno_otorga p rs) (e₁ p)
              ∙ or_assoc (tiene p v.out) (tiene p (role_permissions r)) (alguno_otorga p rs)),
    )

vacio : IsVistos (record { seen = []; out = [] })
unfolding any_row count_rows
vacio = record { mismos = λ p. refl; una_vez = λ p. omega arith }

-- A permission is in the result exactly where some role of the list grants it, and no permission is
-- in the result twice.
pub permissions_for_roles-union :
    (roles : List Text) (p : Text)
    → (tiene p (permissions_for_roles roles) ≡ alguno_otorga p roles)
      × (veces p (permissions_for_roles roles) ≤ 1)
unfolding permissions_for_roles any_row
permissions_for_roles-union roles p =
    let (i, e) = add_roles-tiene (record { seen = []; out = [] }) roles vacio in (e p, i.una_vez p)
