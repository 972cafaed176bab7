-- ===== src/Asistencia/Cubiertas/Corregidas.antt =====
-- Corrections leave the requests for overtime covered.
use backend_ssas_rrhh.Base.{
  ℕ, ◌≡◌, refl, inl, inr, true, false, some, List, ◌==◌, any, find_first, find_first-passes,
  add_row, arith, Bool-cases,
}
use backend_ssas_rrhh.Reclutamiento.Lookup.{update_key}
use backend_ssas_rrhh.Personal.Rows.{Calendario, is_pendiente_solicitud}
use backend_ssas_rrhh.Asistencia.Rows.{
  Fichaje, Correccion, Autorizacion, AsistenciaDb, fichaje_key, correccion_key,
}
use backend_ssas_rrhh.Asistencia.Lookup.{asks_for, is_of}
use backend_ssas_rrhh.Asistencia.Decisiones.{with_times}
use backend_ssas_rrhh.Asistencia.Tablas.{
  In, Distinct, find_first-In, Distinct-add_row, Distinct-update_key, All-map, any-In, any-add_row,
  any-changed,
}
use backend_ssas_rrhh.Asistencia.Cambios.{Asked}
use backend_ssas_rrhh.Asistencia.Cambios.Decidida.{RowChange, kept, changed, added}
use backend_ssas_rrhh.Asistencia.Cambios.Resuelta.{Decided}
use backend_ssas_rrhh.Asistencia.Cubiertas.{Backed, Covered, Backed-update_key, Backed-add_row}

-- A new correction is of an attendance without a request for overtime.
Backed-asked :
    (x : Correccion) (db : AsistenciaDb) (a : Autorizacion)
    → ((i : ℕ) → asks_for i x ≡ true → any (is_of i) db.autorizaciones ≡ false)
    → In a db.autorizaciones
    → Backed db.asistencias db.correcciones a
    → Backed db.asistencias (add_row x db.correcciones) a
Backed-asked x db a apart stands b = record {
  row = b.row;
  found = b.found;
  left = b.left;
  within = b.within;
  free =
      any-add_row (asks_for a.asistencia_id) x db.correcciones b.free
        (elim (Bool-cases (asks_for a.asistencia_id x)) [
          | inr other ↦ other
          | inl asks ↦
              let not_of =
                any-In (is_of a.asistencia_id) db.autorizaciones a (apart a.asistencia_id asks)
                  stands in
              absurd (ground arith)
        ]);
}

pub request_correction-Covered :
    (x : Correccion) (db db' : AsistenciaDb) → Asked x db db' → Covered db → Covered db'
request_correction-Covered x db db' r c = record {
  distinct = rw r.asistencias c.distinct;
  backed =
      rw (r.asks, r.asistencias, r.autorizaciones)
        (All-map (Backed db.asistencias db.correcciones)
          (Backed db.asistencias (add_row x db.correcciones)) db.autorizaciones
          (λ a stands b. Backed-asked x db a r.apart stands b) c.backed);
}

-- The attendance that a correction names is not that of a request.
named-other :
    (i : ℕ) (request : Correccion) (db : AsistenciaDb) (a : Autorizacion)
    → find_first (λ s. correccion_key s == request.id) db.correcciones ≡ some request
    → is_pendiente_solicitud request.estado ≡ true
    → request.asistencia_id ≡ some i
    → Backed db.asistencias db.correcciones a
    → (i == a.asistencia_id) ≡ false
named-other i request db a found waits named b =
    let stands =
      find_first-In (λ s. correccion_key s == request.id) db.correcciones request found in
    let free = any-In (asks_for a.asistencia_id) db.correcciones request b.free stands in
    ground arith

RowChange-Backed :
    (company : ℕ) (request : Correccion) (rows' : List Fichaje) (db : AsistenciaDb)
    (a : Autorizacion)
    → find_first (λ s. correccion_key s == request.id) db.correcciones ≡ some request
    → is_pendiente_solicitud request.estado ≡ true
    → RowChange company request db.asistencias rows'
    → Backed db.asistencias db.correcciones a
    → Backed rows' db.correcciones a
RowChange-Backed company request rows' db a found waits (kept same) b = rw same b
RowChange-Backed company request rows' db a found waits (changed row w o l named _ _ _ _ same) b =
    rw same (
      Backed-update_key row.id (with_times request w o l) db.asistencias db.correcciones a
        (λ r. refl) (named-other row.id request db a found waits named b) b)
RowChange-Backed company request rows' db a found waits (added n w o l _ _ _ fresh _ same) b =
    let stands =
      find_first-In (λ r. fichaje_key r == a.asistencia_id) db.asistencias b.row b.found in
    let has =
      find_first-passes (λ r. fichaje_key r == a.asistencia_id) db.asistencias {x = b.row}
        b.found in
    let apart = any-In (λ (s : Fichaje). s.id == n.id) db.asistencias b.row fresh stands in
    rw same (
      Backed-update_key n.id (with_times request w o l) (add_row n db.asistencias) db.correcciones a
        (λ r. refl) (ground arith) (Backed-add_row n db.asistencias db.correcciones a b))

RowChange-Distinct :
    (company : ℕ) (request : Correccion) (rows rows' : List Fichaje)
    → RowChange company request rows rows'
    → Distinct fichaje_key rows
    → Distinct fichaje_key rows'
RowChange-Distinct company request rows rows' (kept same) d = rw same d
RowChange-Distinct company request rows rows' (changed row w o l _ _ _ _ _ same) d =
    rw same (Distinct-update_key fichaje_key row.id (with_times request w o l) (λ r. refl) rows d)
RowChange-Distinct company request rows rows' (added n w o l _ _ _ fresh _ same) d = rw same (
    Distinct-update_key fichaje_key n.id (with_times request w o l) (λ r. refl) (add_row n rows)
      (Distinct-add_row fichaje_key n rows fresh d))

pub decide_correction-Covered :
    (cal : Calendario) (db db' : AsistenciaDb) → Decided cal db db' → Covered db → Covered db'
decide_correction-Covered cal db db' d c =
    let request = d.request in
    let settled = d.settled in
    let w = d.waiting in
    record {
      distinct =
          RowChange-Distinct d.company request db.asistencias db'.asistencias d.rows c.distinct;
      backed =
          rw (d.asks, d.autorizaciones)
            (All-map (Backed db.asistencias db.correcciones)
              (Backed db'.asistencias
                (update_key correccion_key request.id settled db.correcciones))
              db.autorizaciones
              (λ a _ b.
                let b' =
                  RowChange-Backed d.company request db'.asistencias db a w.found w.waits d.rows
                    b in
                record {
                  row = b'.row;
                  found = b'.found;
                  left = b'.left;
                  within = b'.within;
                  free =
                      any-changed correccion_key request.id settled (asks_for a.asistencia_id)
                        db.correcciones b'.free (λ s. let over = d.closed s in ground arith);
                })
              c.backed);
    }
