-- ===== src/Expensas/Liquidacion/Activas.antt =====
-- The transitions keep one active settlement for each period.
use mathlib.Core.Path.{subst}
use consorcioabierto.Prelude.{
  ◌≤◌, count_rows, sym, ap, ◌∙◌, ℕ, ◌≡◌, refl, sym, ap, Bool, true, false, ◌&&◌, ◌==◌, arith,
}
use consorcioabierto.Prelude.Text.{Text, text_eq}
use consorcioabierto.Prelude.Rows.{count_rows-fewer}
use consorcioabierto.Action.{
  liquidacion_version_mismatch, or_raise-ok, raise_if-ok, liquidacion_not_found,
  liquidacion_invalid, or_raise, liquidacion_transicion_invalida, raise_if, >>=-eq-ok, ok, ok_inj,
  guard-ok, out_of_range,
}
use consorcioabierto.Env.{Env, Uuid}
use consorcioabierto.Store.{
  Db, Liquidacion, Estado, borrador, calculada, confirmada, publicada, cerrada, anulada, sin_estado,
  estado_eq,
}
use consorcioabierto.Queries.Liquidaciones.{
  blocks_periodo, bump_estado, bumps_out_of_range, is_activa, same_liquidacion, transition_fits,
  transition_liquidacion, version_is,
}
use consorcioabierto.Expensas.Liquidacion.{not, transition_estado, can_transition}
use consorcioabierto.Expensas.Liquidacion.Estados.{bumped, transitioned}

-- No two active settlements of the tenant are of the same building and period.
abbrev pub UnaActiva : Db → Type 0
UnaActiva db =
    (cid : Uuid) (periodo : Text) → count_rows (blocks_periodo cid periodo db) db.liquidaciones ≤ 1

-- Every transition of the machine starts from an active state.
active_source :
    (a current next : Estado)
    → can_transition current next ≡ true
    → estado_eq a current ≡ true
    → is_activa a ≡ true
unfolding can_transition
active_source borrador current next h e = refl
active_source calculada current next h e = refl
active_source confirmada current next h e = refl
active_source publicada current next h e = refl
active_source sin_estado current next h e = refl
active_source cerrada borrador next h e = cc
active_source cerrada calculada next h e = cc
active_source cerrada confirmada next h e = cc
active_source cerrada publicada next h e = cc
active_source cerrada cerrada next h e = cc
active_source cerrada anulada next h e = cc
active_source cerrada sin_estado next h e = cc
active_source anulada borrador next h e = cc
active_source anulada calculada next h e = cc
active_source anulada confirmada next h e = cc
active_source anulada publicada next h e = cc
active_source anulada cerrada next h e = cc
active_source anulada anulada next h e = cc
active_source anulada sin_estado next h e = cc

replace_last : (a b d : Bool) → a && b ≡ true → d ≡ true → a && d ≡ true
replace_last true b d h k = k
replace_last false b d h k = h

second : (a b c : Bool) → a && b && c ≡ true → b ≡ true
second true true c h = refl
second true false c h = h
second false b c h = cc

still_blocked :
    (next : Estado) (cid c : Uuid) (lid : Uuid) (current : Estado) (expected : ℕ) (p : Text)
    (db : Db) (r : Liquidacion)
    → can_transition current next ≡ true
    → transition_fits cid lid current expected db r ≡ true
    → blocks_periodo c p db (bumped next db r) ≡ true
    → blocks_periodo c p db r ≡ true
unfolding blocks_periodo
still_blocked next cid c lid current expected p db r can fits h =
    let from =
      second (same_liquidacion cid lid db r) (estado_eq r.estado current) (version_is expected r)
        fits in
    replace_last (r.tenant_id == db.current_tenant && r.consorcio_id == c && text_eq r.periodo p)
      (is_activa next) (is_activa r.estado) h (active_source r.estado current next can from)

transitioned-UnaActiva :
    (next : Estado) (cid lid : Uuid) (current : Estado) (expected : ℕ) (db : Db)
    → can_transition current next ≡ true
    → UnaActiva db
    → UnaActiva (transitioned next cid lid current expected db)
unfolding blocks_periodo
transitioned-UnaActiva next cid lid current expected db can unique c p =
    let fewer =
      count_rows-fewer (blocks_periodo c p db) (transition_fits cid lid current expected db)
        (bumped next db) db.liquidaciones
        (λ y fits h. still_blocked next cid c lid current expected p db y can fits h) in
    omega (arith, fewer, unique c p)

transition-ok :
    (next : Estado) (cid lid : Uuid) (current : Estado) (expected : ℕ) (db : Db) (n : ℕ) (db' : Db)
    → transition_liquidacion next cid lid current expected db ≡ ok (n, db')
    → db' ≡ transitioned next cid lid current expected db
unfolding transition_liquidacion bump_estado
transition-ok next cid lid current expected db n db' h =
    let (good, k) =
      guard-ok (bumps_out_of_range (transition_fits cid lid current expected db) db.liquidaciones)
        out_of_range _ h in
    sym (ap (λ r. r.1) (ok_inj k))

module _ (env : Env) where
  -- A transition that succeeds keeps at most one active settlement for each building and period: no
  -- transition brings an annulled or a closed settlement back.
  pub transition_estado-UnaActiva :
      (consorcio_id id : Text) (current next : Estado) (expected : ℕ) (db db' : Db)
      → UnaActiva db
      → transition_estado env consorcio_id id current next expected db ≡ ok (tt, db')
      → UnaActiva db'
  unfolding transition_estado
  transition_estado-UnaActiva consorcio_id id current next expected db db' unique h =
      let (_, db₁, h₁, k₁) =
        >>=-eq-ok (raise_if (not (can_transition current next)) liquidacion_transicion_invalida) _
          db h in
      let (cid, db₂, h₂, k₂) =
        >>=-eq-ok (or_raise (env.scan_uuid consorcio_id) liquidacion_invalid) _ db₁ k₁ in
      let (lid, db₃, h₃, k₃) =
        >>=-eq-ok (or_raise (env.scan_uuid id) liquidacion_not_found) _ db₂ k₂ in
      let (n, db₄, h₄, k₄) =
        >>=-eq-ok (transition_liquidacion next cid lid current expected) _ db₃ k₃ in
      let (can, same₁) =
        raise_if-ok (not (can_transition current next)) liquidacion_transicion_invalida db h₁ in
      let same₂ = (or_raise-ok (env.scan_uuid consorcio_id) liquidacion_invalid db₁ h₂).1 in
      let same₃ = (or_raise-ok (env.scan_uuid id) liquidacion_not_found db₂ h₃).1 in
      let before : db₃ ≡ db = same₃ ∙ (same₂ ∙ ap (λ r. r.1) same₁) in
      let (_, same₄) = raise_if-ok (n == 0) liquidacion_version_mismatch db₄ k₄ in
      let after =
        transitioned-UnaActiva next cid lid current expected db₃
          (allowed (can_transition current next) can) (subst UnaActiva (sym before) unique) in
      subst UnaActiva
        (sym (transition-ok next cid lid current expected db₃ n db₄ h₄) ∙ sym (ap (λ r. r.1) same₄))
        after
    where
      allowed : (b : Bool) → not b ≡ false → b ≡ true
      allowed true h = refl
      allowed false h = cc
