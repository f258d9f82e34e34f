-- ===== src/Expensas/Liquidacion/Versiones.antt =====
-- The optimistic lock: of two callers that read the same version, one succeeds.
use consorcioabierto.Prelude.{ℕ, ◌+◌, ◌%◌, ◌≡◌, Bool, true, false, ◌&&◌, ◌==◌, leb, some, arith}
use consorcioabierto.Prelude.Text.{Text}
use consorcioabierto.Prelude.Rows.{IsKey, count_rows-update}
use consorcioabierto.Action.{ok, err, liquidacion_version_mismatch}
use consorcioabierto.Env.{Uuid, Env}
use consorcioabierto.Store.{Db, Liquidacion, Estado, estado_eq}
use consorcioabierto.Queries.Liquidaciones.{
  transition_fits, same_liquidacion, get_liquidacion, version_is,
}
use consorcioabierto.Expensas.Liquidacion.{can_transition, transition_estado}
use consorcioabierto.Expensas.Liquidacion.Estados.{
  bumped, transitioned, same-bumped, transition_estado_exacta,
}

stale_version :
    (e v : ℕ) (b : Bool) → b && (e == v) ≡ true → (b' : Bool) → b' && (e == v + 1) ≡ false
stale_version e v b h b' = ground (arith, h)

module _ (env : Env) where
  -- After a transition that succeeded with the version of the row, every further transition of the
  -- machine with that same version is refused with a version mismatch, from whatever state it says
  -- the row is in: no update is lost. (The key is unique and the version stays below the greatest
  -- INT.)
  pub version_usada_una_vez :
      (consorcio_id id : Text) (current next current' next' : Estado) (expected : ℕ) (db : Db)
      (cid lid : Uuid) (r : Liquidacion)
      → env.scan_uuid consorcio_id ≡ some cid
      → env.scan_uuid id ≡ some lid
      → IsKey (same_liquidacion cid lid db) db.liquidaciones
      → get_liquidacion cid lid db ≡ some r
      → leb 2147483647 (r.version + 1) ≡ false
      → can_transition current next ≡ true
      → can_transition current' next' ≡ true
      → estado_eq r.estado current && version_is expected r ≡ true
      → let db' = transitioned next cid lid current expected db in
        (transition_estado env consorcio_id id current next expected db ≡ ok (tt, db'))
        × (transition_estado env consorcio_id id current' next' expected db'
            ≡ err liquidacion_version_mismatch)
  unfolding same_liquidacion
  version_usada_una_vez consorcio_id id current next current' next' expected db cid lid r c i key
        found small can can' fits =
      let small' : leb 2147483647 r.version ≡ false = ground (arith, small) in
      let first =
        transition_estado_exacta env consorcio_id id current next expected db cid lid r c i key
          found small' in
      let (ran, found') = first.2 can fits in
      let key' : IsKey (same_liquidacion cid lid db)
          (transitioned next cid lid current expected db).liquidaciones =
        rw
          (count_rows-update (same_liquidacion cid lid db)
            (transition_fits cid lid current expected db) (bumped next db) db.liquidaciones
            (same-bumped next cid lid db))
          key in
      let second =
        transition_estado_exacta env consorcio_id id current' next' expected
          (transitioned next cid lid current expected db) cid lid (bumped next db r) c i key' found'
          small in
      (
        ran,
        second.1 can'
            (stale_version (expected % 4294967296) r.version (estado_eq r.estado current) fits _),
      )
