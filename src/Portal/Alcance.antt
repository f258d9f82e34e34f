-- ===== src/Portal/Alcance.antt =====
-- A claim that is opened from the portal is on a unit that its user is tied to.
use mathlib.Core.Path.{subst}
use consorcioabierto.Prelude.{
  arith, ℕ, Bool, true, Option, none, some, List, [], ◌∷◌, ◌++◌, ◌≡◌, refl, sym, ap, ◌∙◌, inl, inr,
  not, ◌&&◌, ltb, ◌==◌, Bool-cases, All, select, find_row, length,
}
use consorcioabierto.Prelude.Rows.{find_row-fits}
use consorcioabierto.Prelude.Text.{Text, trim_space, is_empty}
use consorcioabierto.Prelude.Sort.{All-sort_by}
use consorcioabierto.Action.{
  Result, ok, err, ok_inj, check_violation, foreign_key_violation, categoria_obligatoria,
  texto_corto, sin_vinculo, invalid_id, Action, >>=-eq-ok, guard-ok, lift-ok, raise_if-ok,
  or_raise-ok, lift, raise_if, or_raise,
}
use mathlib.Core.List.{Mem}
use consorcioabierto.Prelude.Members.{All-select, any_row-Mem, and_parts}
use consorcioabierto.Prelude.{◌≤◌, leb, false}
use consorcioabierto.Prelude.Dates.{Date}
use consorcioabierto.Notificaciones.Tablas.{UnidadPersona, PersonaUsuario}
use consorcioabierto.Env.{Uuid, Env, ParseRoundTrip, ParsersAgree}
use consorcioabierto.Reclamos.Historial.{some_inj}
use consorcioabierto.Reclamos.Tablas.{Reclamo, Tablas}
use consorcioabierto.Reclamos.Consultas.{existe, create_reclamo}
use consorcioabierto.Reclamos.Servicio.{ReclamoDto, CreateInput, parse_id, create}
use consorcioabierto.Portal.{
  UnidadMia, Vinculos, vinculo_vigente, es_persona_del_usuario, es_mia, unidad_antes,
  list_unidades_for_current_user, en_tablas, con_tablas, unidad_pedida, crear_reclamo,
}

-- The user of the session is tied to a unit of the tenant by a person of theirs, since a day that is
-- not after today and until none that is before it.
pub record Vinculado (s : Vinculos) (u : UnidadMia) : Type 0 where
  pub up : UnidadPersona
  pub p : PersonaUsuario
  pub user : Uuid
  pub hay : Mem u s.mis_unidades × Mem up s.unidad_personas × Mem p s.personas
  pub inquilino : u.tenant_id ≡ s.tablas.current_tenant
  pub de_unidad : (up.tenant_id ≡ u.tenant_id) × (up.unidad_id ≡ u.id)
  pub de_persona : (p.tenant_id ≡ u.tenant_id) × (p.id ≡ up.persona_id)
  pub de_usuario : (p.user_id ≡ some user) × (s.tablas.current_user ≡ some user)
  pub desde : up.valid_from ≤ s.current_date
  pub hasta : (h : Date) → up.valid_to ≡ some h → s.current_date ≤ h

module _ {A : Type 0} (P : A → Type 0) where
  find_row-All : (q : A → Bool) (xs : List A) (x : A) → All P xs → find_row q xs ≡ some x → P x
  unfolding find_row
  find_row-All q [] x ps h = cc
  find_row-All q (y ∷ ys) x ps h = elim (Bool-cases (q y)) [
    | inl es ↦ subst (λ o. elim o [ none ↦ P x | some z ↦ P z ]) (rw es at h) ps.0
    | inr otra ↦ find_row-All q ys x ps.1 (rw otra at h)
  ]

todas_mias :
    (s : Vinculos)
    → All (λ u. (es_mia s u ≡ true) × Mem u s.mis_unidades) (list_unidades_for_current_user s)
unfolding list_unidades_for_current_user
todas_mias s =
    All-sort_by unidad_antes (λ u. (es_mia s u ≡ true) × Mem u s.mis_unidades)
      (select (es_mia s) s.mis_unidades)
      (All-select (es_mia s) s.mis_unidades s.mis_unidades (λ u m. m))

igual : (a b : ℕ) → a == b ≡ true → a ≡ b
igual a b h = ground (arith, h)

hasta_hoy :
    (o : Option Date) (hoy h : Date)
    → (elim o [ none ↦ true | some d ↦ leb hoy d ]) ≡ true
    → o ≡ some h
    → hoy ≤ h
hasta_hoy none hoy h e k = cc
hasta_hoy (some d) hoy h e k = ground (arith, e, some_inj k)

usuario_de :
    (o c : Option Uuid)
    → (elim o [ none ↦ false | some u ↦ elim c [ none ↦ false | some v ↦ u == v ] ]) ≡ true
    → (u : Uuid) × (o ≡ some u) × (c ≡ some u)
usuario_de none c h = cc
usuario_de (some u) none h = cc
usuario_de (some u) (some v) h = (u, refl, ap some (sym (igual u v h)))

cinco :
    (a b c d e : Bool)
    → a && b && c && d && e ≡ true
    → (a ≡ true) × (b ≡ true) × (c ≡ true) × (d ≡ true) × (e ≡ true)
cinco true true true true true h = (refl, refl, refl, refl, refl)
cinco true true true true false h = cc
cinco true true true false e h = cc
cinco true true false d e h = cc
cinco true false c d e h = cc
cinco false b c d e h = cc

tres : (a b c : Bool) → a && b && c ≡ true → (a ≡ true) × (b ≡ true) × (c ≡ true)
tres true true true h = (refl, refl, refl)
tres true true false h = cc
tres true false c h = cc
tres false b c h = cc

vinculada :
    (s : Vinculos) (u : UnidadMia) → es_mia s u ≡ true → Mem u s.mis_unidades → Vinculado s u
vinculada s u h esta =
    let (inq, atada) = and_parts (u.tenant_id == s.tablas.current_tenant) _ h in
    let (up, esta_up, h₁) = any_row-Mem (vinculo_vigente u s) s.unidad_personas atada in
    let (a, b, c, d, h₅) = cinco _ _ _ _ _ h₁ in
    let (p, esta_p, h₆) =
      any_row-Mem
        (λ p.
          p.tenant_id == u.tenant_id && p.id == up.persona_id && es_persona_del_usuario s.tablas p)
        s.personas h₅ in
    let (e, f, g) = tres _ _ _ h₆ in
    let (user, de, actual) = usuario_de p.user_id s.tablas.current_user g in
    record {
      up = up;
      p = p;
      user = user;
      hay = (esta, esta_up, esta_p);
      inquilino = igual _ _ inq;
      de_unidad = (igual _ _ a, igual _ _ b);
      de_persona = (igual _ _ e, igual _ _ f);
      de_usuario = (de, actual);
      desde = ground (arith, c);
      hasta = λ h k. hasta_hoy up.valid_to s.current_date h d k;
    }

-- One claim more, on a unit of a building, by the user.
pub record Abierto (t t' : Tablas) (consorcio unidad : Uuid) : Type 0 where
  pub row : Reclamo
  pub agregado : t'.reclamos ≡ t.reclamos ++ row ∷ []
  pub en_consorcio : row.consorcio_id ≡ consorcio
  pub en_unidad : row.unidad_id ≡ unidad
  pub de_usuario : row.created_by ≡ t.current_user

module _ (env : Env) where
  create_reclamo-Abierto :
      (consorcio unidad : Uuid) (categoria texto : Text) (sla : Option ℕ) (t t' : Tablas)
      (row : Reclamo)
      → create_reclamo env consorcio unidad categoria texto sla t ≡ ok (row, t')
      → Abierto t t' consorcio unidad
  unfolding create_reclamo
  create_reclamo-Abierto consorcio unidad categoria texto sla t t' row h =
      let (a, h₁) = guard-ok (is_empty texto) check_violation _ h in
      let (b, h₂) =
        guard-ok (not (existe consorcio t t.consorcios && existe unidad t t.unidades))
          foreign_key_violation _ h₁ in
      subst (λ (x : Reclamo × Tablas). Abierto t x.1 consorcio unidad) (ok_inj h₂)
        (record {
          row = _;
          agregado = refl;
          en_consorcio = refl;
          en_unidad = refl;
          de_usuario = refl;
        })

  create-Abierto :
      (ahora : ℕ) (consorcio_id : Text) (in_ : CreateInput) (t t' : Tablas) (r : ReclamoDto)
      → create env ahora consorcio_id in_ t ≡ ok (r, t')
      → (consorcio unidad : Uuid) × (parse_id env consorcio_id ≡ ok consorcio)
        × (parse_id env (trim_space in_.unidad_id) ≡ ok unidad)
        × Abierto t t' consorcio unidad
  unfolding create
  create-Abierto ahora consorcio_id in_ t t' r h =
      let (x₁, t₁, e₁, h₁) =
        >>=-eq-ok (raise_if (is_empty (trim_space in_.categoria)) categoria_obligatoria) _ t h in
      let (x₂, t₂, e₂, h₂) =
        >>=-eq-ok (raise_if (ltb (length (trim_space in_.texto)) 3) texto_corto) _ t₁ h₁ in
      let (c, t₃, e₃, h₃) = >>=-eq-ok (lift (parse_id env consorcio_id)) _ t₂ h₂ in
      let (u, t₄, e₄, h₄) = >>=-eq-ok (lift (parse_id env (trim_space in_.unidad_id))) _ t₃ h₃ in
      let (row, t₅, e₅, h₅) = >>=-eq-ok (create_reclamo env c u _ _ _) _ t₄ h₄ in
      let (leyo, s₃) = lift-ok (parse_id env consorcio_id) t₂ e₃ in
      let (leyo', s₄) = lift-ok (parse_id env (trim_space in_.unidad_id)) t₃ e₄ in
      let s₁ = ap (λ p. p.1) ((raise_if-ok _ categoria_obligatoria t e₁).1) in
      let s₂ = ap (λ p. p.1) ((raise_if-ok _ texto_corto t₁ e₂).1) in
      let igual : t₄ ≡ t = s₄ ∙ (s₃ ∙ (s₂ ∙ s₁)) in
      let fin : t₅ ≡ t' = ap (λ p. p.1) (ok_inj h₅) in
      (
        c,
        u,
        leyo,
        leyo',
        subst (λ x. Abierto x t' c u) igual
            (subst (λ x. Abierto t₄ x c u) fin (create_reclamo-Abierto c u _ _ _ t₄ t₅ row e₅)),
      )

  unidad_pedida-ok :
      (s : Text) (id : Uuid) → unidad_pedida env s ≡ ok id → env.scan_uuid s ≡ some id
  unfolding unidad_pedida
  unidad_pedida-ok s id h = go (env.scan_uuid s) h
    where
      go :
          (o : Option Uuid)
          → elim o [ none ↦ err sin_vinculo | some u ↦ ok u ] ≡ Result.ok id
          → o ≡ some id
      go none h = cc
      go (some u) h = ap Option.some (ok_inj h)

  parse_id-ok : (s : Text) (id : Uuid) → parse_id env s ≡ ok id → env.parse_uuid s ≡ some id
  unfolding parse_id
  parse_id-ok s id h = go (env.parse_uuid s) h
    where
      go :
          (o : Option Uuid)
          → elim o [ none ↦ err invalid_id | some u ↦ ok u ] ≡ Result.ok id
          → o ≡ some id
      go none h = cc
      go (some u) h = ap Option.some (ok_inj h)

en_tablas-ok :
    {A : Type 0} (m : Action Tablas A) (s s' : Vinculos) (a : A)
    → en_tablas m s ≡ ok (a, s')
    → m s.tablas ≡ ok (a, s'.tablas)
unfolding en_tablas con_tablas
en_tablas-ok {A} m s s' a h = go (m s.tablas) h
  where
    go : (x : Result (A × Tablas)) → con_tablas s x ≡ ok (a, s') → x ≡ ok (a, s'.tablas)
    go (ok (b, t)) h =
        let igual = ok_inj h in ap (λ (p : A × Vinculos). Result.ok (p.0, p.1.tablas)) igual
    go (err e) h = cc

-- A claim that is opened from the portal is on a unit of the tenant that the user of the session is
-- tied to today (`Vinculado`: the tie has begun, and has no end or one that is not before today), in
-- the building of that unit, by that user; one row is added to the claims. It is where identifiers that are printed are read back, and
-- the two parsers of identifiers agree.
pub crear_reclamo-propia :
    (env : Env) (ahora : ℕ) (in_ : CreateInput) (s s' : Vinculos) (r : ReclamoDto)
    → ParseRoundTrip env
    → ParsersAgree env
    → crear_reclamo env ahora in_ s ≡ ok (r, s')
    → (u : UnidadMia) × Vinculado s u × Abierto s.tablas s'.tablas u.consorcio_id u.id
unfolding crear_reclamo
crear_reclamo-propia env ahora in_ s s' r ida acuerdo h =
    let (x₁, s₁, e₁, h₁) =
      >>=-eq-ok (raise_if (is_empty (trim_space in_.unidad_id)) sin_vinculo) _ s h in
    let (id, s₂, e₂, h₂) =
      >>=-eq-ok (lift (unidad_pedida env (trim_space in_.unidad_id))) _ s₁ h₁ in
    let (u, s₃, e₃, h₃) =
      >>=-eq-ok
        (or_raise (find_row (λ v. v.id == id) (list_unidades_for_current_user s₂)) sin_vinculo) _ s₂
        h₂ in
    let i₁ : s₁ ≡ s = ap (λ p. p.1) ((raise_if-ok _ sin_vinculo s e₁).1) in
    let (pedida, i₂) = lift-ok (unidad_pedida env (trim_space in_.unidad_id)) s₁ e₂ in
    let (hallada, i₃) =
      or_raise-ok (find_row (λ v. v.id == id) (list_unidades_for_current_user s₂)) sin_vinculo s₂
        e₃ in
    let mia : (es_mia s₂ u ≡ true) × Mem u s₂.mis_unidades =
      find_row-All (λ v. (es_mia s₂ v ≡ true) × Mem v s₂.mis_unidades) (λ v. v.id == id)
        (list_unidades_for_current_user s₂) u (todas_mias s₂) hallada in
    let es_esa : u.id ≡ id =
      ground
        (arith, find_row-fits (λ v. v.id == id) (list_unidades_for_current_user s₂) u hallada) in
    let (c, n, leyo, leyo', abierto) =
      create-Abierto env ahora (env.uuid_string u.consorcio_id) in_ s₃.tablas s'.tablas r
        (en_tablas-ok (create env ahora (env.uuid_string u.consorcio_id) in_) s₃ s' r h₃) in
    let misma : c ≡ u.consorcio_id =
      some_inj (sym (parse_id-ok env _ c leyo) ∙ ida u.consorcio_id) in
    let esa : n ≡ u.id =
      sym (acuerdo _ id n (unidad_pedida-ok env _ id pedida) (parse_id-ok env _ n leyo'))
      ∙ sym es_esa in
    (
      u,
      subst (λ x. Vinculado x u) (i₂ ∙ i₁) (vinculada s₂ u mia.0 mia.1),
      subst (λ x. Abierto x.tablas s'.tablas u.consorcio_id u.id) (i₃ ∙ (i₂ ∙ i₁))
          (subst (λ x. Abierto s₃.tablas s'.tablas x u.id) misma
            (subst (λ x. Abierto s₃.tablas s'.tablas c x) esa abierto)),
    )
