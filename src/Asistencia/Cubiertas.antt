-- ===== src/Asistencia/Cubiertas.antt =====
-- The hours of an overtime request stay within those that were clocked: clocking in and out.
pub mod Corregidas
pub mod Runs
use backend_ssas_rrhh.Base.{
  ℕ, ◌≤◌, ◌≡◌, refl, sym, ap, ◌∙◌, inl, inr, Bool, true, false, not, Option, none, some, List, [],
  ◌∷◌, ◌==◌, same_key, is_some, any, All, find_first, find_first-passes, add_row, ok, arith,
  Bool-cases, ==_iff,
}
use mathlib.Core.Path.{subst}
use backend_ssas_rrhh.Reclutamiento.Lookup.{update_key}
use backend_ssas_rrhh.Reclutamiento.Keys.{find_first-or_new, find_first-update_key_other}
use backend_ssas_rrhh.Personal.Rows.{Calendario, is_pendiente_solicitud}
use backend_ssas_rrhh.Asistencia.Rows.{
  Fichaje, Correccion, Autorizacion, AsistenciaDb, fichaje_key, correccion_key, autorizacion_key,
}
use backend_ssas_rrhh.Asistencia.Lookup.{asks_for, is_of}
use backend_ssas_rrhh.Asistencia.Fichar.{with_salida}
use backend_ssas_rrhh.Asistencia.Decisiones.{with_times}
use backend_ssas_rrhh.Asistencia.Extras.{with_jefe}
use backend_ssas_rrhh.Asistencia.Rrhh.{with_rrhh}
use backend_ssas_rrhh.Asistencia.Requests.{
  Ajuste, Step, Run, asked, corrected, claimed, confirmed, authorized, entered, left, adjusted,
  stay, then_step,
}
use backend_ssas_rrhh.Asistencia.Tablas.{
  In, Distinct, find_first-In, find_first-Distinct, Distinct-add_row, Distinct-update_key, All-In,
  All-map, All-add_row, All-changed, any-In, any-add_row, any-changed,
}
use backend_ssas_rrhh.Asistencia.Cambios.{
  SameAsks, Entered, Left, Asked, clock_in-Entered, clock_out-Left, request_correction-Asked,
}
use backend_ssas_rrhh.Asistencia.Cambios.Decidida.{RowChange, kept, changed, added, Waits}
use backend_ssas_rrhh.Asistencia.Cambios.Resuelta.{Decided, decide_correction-Decided}
use backend_ssas_rrhh.Asistencia.Cambios.Extra.{
  SameRows, Claimed, Reviewed, Closed, request_overtime-Claimed, decide_overtime_boss-Reviewed,
  decide_overtime_hr-Closed,
}

-- The attendance of a request for overtime: closed, with at least the hours that are asked for, and
-- without a correction that waits.
pub record Backed (rows : List Fichaje) (asks : List Correccion) (a : Autorizacion) : Type 0 where
  pub row : Fichaje
  pub found : find_first (λ r. fichaje_key r == a.asistencia_id) rows ≡ some row
  pub left : is_some row.hora_salida ≡ true
  pub within : a.horas_solicitadas ≤ row.horas_extra
  pub free : any (asks_for a.asistencia_id) asks ≡ false

pub record Covered (db : AsistenciaDb) : Type 0 where
  pub distinct : Distinct fichaje_key db.asistencias
  pub backed : All (Backed db.asistencias db.correcciones) db.autorizaciones

-- A change of another attendance.
pub Backed-update_key :
    (i : ℕ) (f : Fichaje → Fichaje) (rows : List Fichaje) (asks : List Correccion)
    (a : Autorizacion)
    → ((r : Fichaje) → fichaje_key (f r) ≡ fichaje_key r)
    → (i == a.asistencia_id) ≡ false
    → Backed rows asks a
    → Backed (update_key fichaje_key i f rows) asks a
Backed-update_key i f rows asks a same other b = record {
  row = b.row;
  found = find_first-update_key_other fichaje_key i f same a.asistencia_id rows other ∙ b.found;
  left = b.left;
  within = b.within;
  free = b.free;
}

pub Backed-add_row :
    (n : Fichaje) (rows : List Fichaje) (asks : List Correccion) (a : Autorizacion)
    → Backed rows asks a
    → Backed (add_row n rows) asks a
Backed-add_row n rows asks a b =
    let row = b.row in
    let found = b.found in
    record {
      row = row;
      found = find_first-or_new (λ r. fichaje_key r == a.asistencia_id) n rows ∙ rw found refl;
      left = b.left;
      within = b.within;
      free = b.free;
    }

pub clock_in-Covered :
    (r : Fichaje) (db db' : AsistenciaDb) → Entered r db db' → Covered db → Covered db'
clock_in-Covered r db db' e c =
    let distinct : Distinct fichaje_key db'.asistencias =
      rw e.rows (Distinct-add_row fichaje_key r db.asistencias e.fresh c.distinct) in
    let backed : All (Backed db'.asistencias db'.correcciones) db'.autorizaciones =
      rw (e.rows, e.others.correcciones, e.others.autorizaciones)
        (All-map (Backed db.asistencias db.correcciones)
          (Backed (add_row r db.asistencias) db.correcciones) db.autorizaciones
          (λ a _ b. Backed-add_row r db.asistencias db.correcciones a b) c.backed) in
    record { distinct = distinct; backed = backed }

-- An open attendance is not that of a request.
open-other :
    (row : Fichaje) (db : AsistenciaDb) (a : Autorizacion)
    → Covered db
    → find_first (λ r. fichaje_key r == row.id) db.asistencias ≡ some row
    → is_some row.hora_salida ≡ false
    → Backed db.asistencias db.correcciones a
    → (row.id == a.asistencia_id) ≡ false
open-other row db a c there opened b = elim (Bool-cases (row.id == a.asistencia_id)) [
  | inr other ↦ other
  | inl same ↦
      let at_key = (==_iff row.id a.asistencia_id).0 same in
      let found : find_first (λ r. fichaje_key r == row.id) db.asistencias ≡ some b.row =
        rw at_key b.found in
      let closed = b.left in
      let one : some row ≡ some b.row = sym there ∙ found in absurd (ground arith)
]

pub clock_out-Covered :
    (row : Fichaje) (f : Fichaje → Fichaje) (db db' : AsistenciaDb)
    → ((r : Fichaje) → fichaje_key (f r) ≡ fichaje_key r)
    → Left row f db db'
    → Covered db
    → Covered db'
clock_out-Covered row f db db' same l c =
    let there = find_first-Distinct fichaje_key db.asistencias row c.distinct l.stands in
    record {
      distinct =
          rw l.rows (Distinct-update_key fichaje_key row.id f same db.asistencias c.distinct);
      backed =
          rw (l.rows, l.others.correcciones, l.others.autorizaciones)
            (All-map (Backed db.asistencias db.correcciones)
              (Backed (update_key fichaje_key row.id f db.asistencias) db.correcciones)
              db.autorizaciones
              (λ a _ b.
                Backed-update_key row.id f db.asistencias db.correcciones a same
                  (open-other row db a c there l.opened b) b)
              c.backed);
    }
