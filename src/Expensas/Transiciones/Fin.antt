-- ===== src/Expensas/Transiciones/Fin.antt =====
-- How an operation on a settlement begins and ends: it reads the settlement, and without a key it
-- ends with the transition.
use consorcioabierto.Prelude.{
  ℕ, ◌≡◌, refl, sym, ap, ◌∙◌, Bool, true, false, ◌&&◌, some, [], ◌==◌, if◌then◌else◌,
}
use consorcioabierto.Prelude.Text.{Text, is_empty}
use consorcioabierto.Prelude.Rows.{IsKey, count_rows-key, find_row-fits}
use consorcioabierto.Action.{
  Action, Error, ok, ok_inj, or_raise, or_raise_after, bind_after, raise_if, raise_if-ok, >>=-eq-ok,
  ◌>>=◌, guard-ok, liquidacion_invalid, liquidacion_not_found, liquidacion_version_mismatch,
  out_of_range,
}
use consorcioabierto.Store.{Db, Liquidacion, LiquidacionDto, Estado, estado_eq}
use consorcioabierto.Env.{Uuid, Env}
use consorcioabierto.Queries.Liquidaciones.{
  same_liquidacion, get_liquidacion, transition_liquidacion, transition_fits, bump_estado,
  version_is, bumps_out_of_range,
}
use consorcioabierto.Expensas.Liquidacion.{get, liquidacion_dto}
use consorcioabierto.Expensas.Liquidacion.Estados.{bumped, transitioned, get-transitioned, fits-key}
use consorcioabierto.Expensas.Idempotencia.{save_idempotency}
use consorcioabierto.Expensas.Transiciones.{finish}

-- A test that comes first and is passed.
pub raise_if-then :
    {B : Type 0} (t : Bool) (e : Error) (f : Unit {0} → Action Db B) (s : Db) {x : B × Db}
    → (raise_if t e >>= f) s ≡ ok x
    → (t ≡ false) × (f tt s ≡ ok x)
raise_if-then true e f s h = cc
raise_if-then false e f s h = (refl, h)

module _ (env : Env) where
  -- Reading a settlement that is there.
  get_lem :
      (consorcio_id id : Text) (db : Db) (cid lid : Uuid) (row : Liquidacion)
      → env.scan_uuid consorcio_id ≡ some cid
      → env.scan_uuid id ≡ some lid
      → get_liquidacion cid lid db ≡ some row
      → get env consorcio_id id db ≡ ok (liquidacion_dto env row, db)
  unfolding get
  get_lem consorcio_id id db cid lid row c i found = rw (c, i, found) refl

  -- A transition that changes a row leaves the settlement in its new state.
  transition_cambia :
      (nuevo actual : Estado) (cid lid : Uuid) (expected n : ℕ) (db db' : Db) (row : Liquidacion)
      → IsKey (same_liquidacion cid lid db) db.liquidaciones
      → get_liquidacion cid lid db ≡ some row
      → transition_liquidacion nuevo cid lid actual expected db ≡ ok (n, db')
      → (n == 0) ≡ false
      → (db' ≡ transitioned nuevo cid lid actual expected db)
        × (get_liquidacion cid lid db' ≡ some (bumped nuevo db row))
  unfolding transition_liquidacion bump_estado get_liquidacion
  transition_cambia nuevo actual cid lid expected n db db' row key found h some_row =
      let fits = transition_fits cid lid actual expected db in
      let (_, k) = guard-ok (bumps_out_of_range fits db.liquidaciones) out_of_range _ h in
      let e = ok_inj k in
      let same = find_row-fits (same_liquidacion cid lid db) db.liquidaciones row found in
      let counted =
        count_rows-key (same_liquidacion cid lid db) fits db.liquidaciones row key found
          (fits-key cid lid actual expected db) in
      let after : transitioned nuevo cid lid actual expected db ≡ db' = ap (λ x. x.1) e in
      let n_is = sym (ap (λ x. x.0) e) ∙ counted in
      (
        sym after,
        ap (get_liquidacion cid lid) (sym after)
            ∙ get-transitioned nuevo cid lid actual expected db row found (
                fit (same_liquidacion cid lid db row) (estado_eq row.estado actual)
                  (version_is expected row) n same n_is some_row),
      )
    where
      fit :
          (a b c : Bool) (n : ℕ)
          → a ≡ true
          → n ≡ (if a && b && c then 1 else 0)
          → (n == 0) ≡ false
          → b && c ≡ true
      fit true true true n p h k = refl
      fit true true false n p h k = cc (sym k ∙ ap (λ m. m == 0) h)
      fit true false c n p h k = cc (sym k ∙ ap (λ m. m == 0) h)
      fit false b c n p h k = cc

  -- The end of an operation without a key: the tables are those after the transition.
  pub finish-transitioned :
      (scope : Text) (nuevo actual : Estado) (consorcio_id id : Text) (cid lid : Uuid)
      (expected : ℕ) (db db' : Db) (row : Liquidacion) (r : LiquidacionDto)
      → env.scan_uuid consorcio_id ≡ some cid
      → env.scan_uuid id ≡ some lid
      → IsKey (same_liquidacion cid lid db) db.liquidaciones
      → get_liquidacion cid lid db ≡ some row
      → finish env scope nuevo consorcio_id id cid lid actual expected [] db ≡ ok (r, db')
      → (db' ≡ transitioned nuevo cid lid actual expected db)
        × (get_liquidacion cid lid db' ≡ some (bumped nuevo db row))
        × (r ≡ liquidacion_dto env (bumped nuevo db row))
  unfolding finish save_idempotency is_empty
  finish-transitioned scope nuevo actual consorcio_id id cid lid expected db db' row r c i key found
        h =
      let (n, d₁, h₁, k₁) =
        >>=-eq-ok (transition_liquidacion nuevo cid lid actual expected) _ db h in
      let (_, d₂, h₂, k₂) = >>=-eq-ok (raise_if (n == 0) liquidacion_version_mismatch) _ d₁ k₁ in
      let (alguna, same) = raise_if-ok (n == 0) liquidacion_version_mismatch d₁ h₂ in
      let (after, now) =
        transition_cambia nuevo actual cid lid expected n db d₁ row key found h₁ alguna in
      let same₂ : d₂ ≡ d₁ = ap (λ x. x.1) same in
      let leido =
        get_lem consorcio_id id d₂ cid lid (bumped nuevo db row) c i
          (ap (get_liquidacion cid lid) same₂ ∙ now) in
      let fin = ok_inj (
        sym (
          bind_after (get env consorcio_id id) _ d₂ (liquidacion_dto env (bumped nuevo db row)) d₂
            leido)
        ∙ k₂) in
      let ends : d₂ ≡ db' = ap (λ x. x.1) fin in
      (
        sym ends ∙ (same₂ ∙ after),
        ap (get_liquidacion cid lid) (sym ends ∙ same₂) ∙ now,
        sym (ap (λ x. x.0) fin),
      )

  -- An operation that reads its settlement first goes on with it.
  pub tras_leer :
      (consorcio_id id : Text) (db : Db) (cid lid : Uuid) (row : Liquidacion)
      (rest : Uuid → Uuid → LiquidacionDto → Action Db LiquidacionDto)
      → env.scan_uuid consorcio_id ≡ some cid
      → env.scan_uuid id ≡ some lid
      → get_liquidacion cid lid db ≡ some row
      → (or_raise (env.scan_uuid consorcio_id) liquidacion_invalid >>= λ cid.
            or_raise (env.scan_uuid id) liquidacion_not_found >>= λ lid.
            get env consorcio_id id >>= λ liq. rest cid lid liq)
          db
        ≡ rest cid lid (liquidacion_dto env row) db
  tras_leer consorcio_id id db cid lid row rest c i found =
      or_raise_after (env.scan_uuid consorcio_id) liquidacion_invalid _ db cid c
      ∙ (or_raise_after (env.scan_uuid id) liquidacion_not_found _ db lid i
          ∙ bind_after (get env consorcio_id id) _ db (liquidacion_dto env row) db
              (get_lem consorcio_id id db cid lid row c i found))
