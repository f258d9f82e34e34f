-- ===== src/Expensas/Liquidacion/Estados.antt =====
-- The transitions of a settlement, with their optimistic lock.
use consorcioabierto.Expensas.Liquidacion.{Text, can_transition, transition_estado}
use consorcioabierto.Prelude.{
  ◌∙◌, ℕ, ◌+◌, ◌≡◌, refl, Bool, true, false, ◌&&◌, leb, some, if◌then◌else◌, update_rows,
}
use consorcioabierto.Prelude.Rows.{
  find_row-update, IsKey, find_row-fits, count_rows-key, any_row-key,
}
use consorcioabierto.Action.{
  bind_after, liquidacion_version_mismatch, liquidacion_transicion_invalida, err, ok,
}
use consorcioabierto.Env.{Env, Uuid}
use consorcioabierto.Store.{Db, Liquidacion, Estado, estado_eq}
use consorcioabierto.Queries.Liquidaciones.{
  same_liquidacion, get_liquidacion, bump_estado, transition_fits, transition_liquidacion,
  version_is,
}

-- The row after a transition.
abbrev pub bumped : Estado → Db → Liquidacion → Liquidacion
bumped nuevo db r = record r { estado = nuevo; version = r.version + 1; updated_at = db.now }

and_left : (a b : Bool) → a && b ≡ true → a ≡ true
and_left true b h = refl
and_left false b h = h

pub fits-key :
    (cid id : Uuid) (actual : Estado) (expected : ℕ) (db : Db) (r : Liquidacion)
    → transition_fits cid id actual expected db r ≡ true
    → same_liquidacion cid id db r ≡ true
fits-key cid id actual expected db r h =
    and_left (same_liquidacion cid id db r) _ (and_left _ (version_is expected r) h)

-- The query on the row found: where it fits, one row changes, and the row found is then the new one.
pub transition-row :
    (nuevo : Estado) (cid id : Uuid) (actual : Estado) (expected : ℕ) (db : Db) (r : Liquidacion)
    → IsKey (same_liquidacion cid id db) db.liquidaciones
    → get_liquidacion cid id db ≡ some r
    → leb 2147483647 r.version ≡ false
    → transition_liquidacion nuevo cid id actual expected db
      ≡ ok (
        if estado_eq r.estado actual && version_is expected r then 1 else 0,
        record db {
          liquidaciones =
              update_rows
                (transition_fits cid id actual expected db)
                (bumped nuevo db)
                db.liquidaciones;
        },
      )
unfolding transition_liquidacion bump_estado get_liquidacion
transition-row nuevo cid id actual expected db r key found small =
    let fits = transition_fits cid id actual expected db in
    let rows = db.liquidaciones in
    let same = find_row-fits (same_liquidacion cid id db) rows r found in
    let counted =
      count_rows-key (same_liquidacion cid id db) fits rows r key found
        (fits-key cid id actual expected db) in
    let in_range =
      any_row-key (same_liquidacion cid id db) fits (λ r. leb 2147483647 r.version) rows r key found
        (fits-key cid id actual expected db) small in
    rw (in_range, counted, same)

-- The database after the query.
abbrev pub transitioned : Estado → Uuid → Uuid → Estado → ℕ → Db → Db
transitioned nuevo cid id actual expected db = record db {
  liquidaciones =
      update_rows (transition_fits cid id actual expected db) (bumped nuevo db) db.liquidaciones;
}

pub same-bumped :
    (nuevo : Estado) (cid id : Uuid) (db : Db) (r : Liquidacion)
    → same_liquidacion cid id db (bumped nuevo db r) ≡ same_liquidacion cid id db r
unfolding same_liquidacion
same-bumped nuevo cid id db r = refl

both : (a b c : Bool) → a ≡ true → b && c ≡ true → a && b && c ≡ true
both a true true h k = rw h refl
both a true false h k = cc
both a false c h k = cc

-- The row found after the query is the new one.
pub get-transitioned :
    (nuevo : Estado) (cid id : Uuid) (actual : Estado) (expected : ℕ) (db : Db) (r : Liquidacion)
    → get_liquidacion cid id db ≡ some r
    → estado_eq r.estado actual && version_is expected r ≡ true
    → get_liquidacion cid id (transitioned nuevo cid id actual expected db)
      ≡ some (bumped nuevo db r)
unfolding get_liquidacion
get-transitioned nuevo cid id actual expected db r found fits =
    let same = find_row-fits (same_liquidacion cid id db) db.liquidaciones r found in
    find_row-update (same_liquidacion cid id db) (transition_fits cid id actual expected db)
      (bumped nuevo db) db.liquidaciones r found
      (both (same_liquidacion cid id db r) (estado_eq r.estado actual) (version_is expected r) same
        fits)
      (same-bumped nuevo cid id db)

module _ (env : Env) where
  -- A transition of a settlement that is found by its identifiers, its key being unique and its
  -- version below the greatest INT: a change that the state machine does not have is refused as
  -- such; where the row is in another state or has another version than the caller says, the call
  -- ends in a version mismatch; otherwise it succeeds, and the row found then has the new state and
  -- the next version.
  pub transition_estado_exacta :
      (consorcio_id id : Text) (current next : Estado) (expected : ℕ) (db : Db) (cid lid : Uuid)
      (r : Liquidacion)
      → env.scan_uuid consorcio_id ≡ some cid
      → env.scan_uuid id ≡ some lid
      → IsKey (same_liquidacion cid lid db) db.liquidaciones
      → get_liquidacion cid lid db ≡ some r
      → leb 2147483647 r.version ≡ false
      → let run = transition_estado env consorcio_id id current next expected db in
        let fits = estado_eq r.estado current && version_is expected r in
        (can_transition current next ≡ false → run ≡ err liquidacion_transicion_invalida)
        × (can_transition current next ≡ true
            → fits ≡ false
            → run ≡ err liquidacion_version_mismatch)
        × (can_transition current next ≡ true
            → fits ≡ true
            → (run ≡ ok (tt, transitioned next cid lid current expected db))
              × (get_liquidacion cid lid (transitioned next cid lid current expected db)
                  ≡ some (bumped next db r)))
  unfolding transition_estado
  transition_estado_exacta consorcio_id id current next expected db cid lid r c i key found small =
      let query = transition-row next cid lid current expected db r key found small in
      (
        λ no. rw no refl,
        λ can no.
            rw (can, c, i)
              (bind_after (transition_liquidacion next cid lid current expected) _ db _ _ query
                ∙ rw no refl),
        λ can fits. (
          rw (can, c, i)
              (bind_after (transition_liquidacion next cid lid current expected) _ db _ _ query
                ∙ rw fits refl),
          get-transitioned next cid lid current expected db r found fits,
        ),
      )
