-- ===== src/Asistencia/Cubiertas/Runs.antt =====
-- Every request about attendance leaves the requests for overtime covered.
use backend_ssas_rrhh.Base.{ℕ, ◌≡◌, refl, ◌==◌}
use backend_ssas_rrhh.Personal.Rows.{Calendario}
use backend_ssas_rrhh.Asistencia.Rows.{Autorizacion, AsistenciaDb, autorizacion_key}
use backend_ssas_rrhh.Asistencia.Fichar.{with_salida}
use backend_ssas_rrhh.Asistencia.Extras.{with_jefe}
use backend_ssas_rrhh.Asistencia.Rrhh.{with_rrhh}
use backend_ssas_rrhh.Asistencia.Requests.{
  Step, Run, asked, corrected, claimed, confirmed, authorized, entered, left, adjusted, stay,
  then_step,
}
use backend_ssas_rrhh.Asistencia.Tablas.{find_first-In, All-In, All-add_row, All-changed}
use backend_ssas_rrhh.Asistencia.Cambios.{
  clock_in-Entered, clock_out-Left, request_correction-Asked,
}
use backend_ssas_rrhh.Asistencia.Cambios.Resuelta.{decide_correction-Decided}
use backend_ssas_rrhh.Asistencia.Cambios.Extra.{
  Claimed, Reviewed, request_overtime-Claimed, decide_overtime_boss-Reviewed,
  decide_overtime_hr-Closed,
}
use backend_ssas_rrhh.Asistencia.Cubiertas.{Backed, Covered, clock_in-Covered, clock_out-Covered}
use backend_ssas_rrhh.Asistencia.Cubiertas.Corregidas.{
  request_correction-Covered, decide_correction-Covered,
}

request_overtime-Covered :
    (a : Autorizacion) (db db' : AsistenciaDb) → Claimed a db db' → Covered db → Covered db'
request_overtime-Covered a db db' k c = record {
  distinct = rw k.others.asistencias c.distinct;
  backed =
      rw (k.others.asistencias, k.others.correcciones, k.requests)
        (All-add_row (Backed db.asistencias db.correcciones) a db.autorizaciones c.backed
          record { row = k.row; found = k.found; left = k.left; within = k.within; free = k.free });
}

-- A decision on a request for overtime leaves its attendance and its hours.
Reviewed-Covered :
    (request : Autorizacion) (f : Autorizacion → Autorizacion) (db db' : AsistenciaDb)
    → ((a : Autorizacion) → (f a).asistencia_id ≡ a.asistencia_id)
    → ((a : Autorizacion) → (f a).horas_solicitadas ≡ a.horas_solicitadas)
    → Reviewed request f db db'
    → Covered db
    → Covered db'
Reviewed-Covered request f db db' same_row same_hours v c =
    let stands =
      find_first-In (λ a. autorizacion_key a == request.id) db.autorizaciones request v.found in
    let b =
      All-In (Backed db.asistencias db.correcciones) db.autorizaciones request c.backed stands in
    record {
      distinct = rw v.others.asistencias c.distinct;
      backed =
          rw (v.others.asistencias, v.others.correcciones, v.requests)
            (All-changed autorizacion_key request.id f (Backed db.asistencias db.correcciones)
              db.autorizaciones request v.found
              record {
                row = b.row;
                found = rw (same_row request) b.found;
                left = b.left;
                within = rw (same_hours request) b.within;
                free = rw (same_row request) b.free;
              }
              c.backed);
    }

pub Step-Covered :
    (wall : ℕ → ℕ) (cal : Calendario) (db db' : AsistenciaDb)
    → Covered db
    → Step wall cal db db'
    → Covered db'
Step-Covered wall cal db db' c (entered user now new_id gps r _ h) =
    clock_in-Covered r db db' (clock_in-Entered wall user now new_id gps r db db' h) c
Step-Covered wall cal db db' c (left user now gps r _ h) =
    let (row, worked, overtime, l) = clock_out-Left user now gps r db db' h in
    clock_out-Covered row (with_salida now gps worked overtime) db db' (λ r. refl) l c
Step-Covered wall cal db db' c (adjusted _ (asked user now new_id x r _ h)) =
    request_correction-Covered r db db'
      (request_correction-Asked wall cal user now new_id x r db db' h) c
Step-Covered wall cal db db' c (adjusted _ (corrected user now new_id id x r _ h)) =
    decide_correction-Covered cal db db'
      (decide_correction-Decided wall cal user now new_id id x r db db' h) c
Step-Covered wall cal db db' c (adjusted _ (claimed user new_id x a _ h)) =
    request_overtime-Covered a db db' (request_overtime-Claimed cal user new_id x a db db' h) c
Step-Covered wall cal db db' c (adjusted _ (confirmed user now id x a _ h)) =
    let (request, v, _, _) = decide_overtime_boss-Reviewed wall cal user now id x a db db' h in
    Reviewed-Covered request (with_jefe user now x) db db' (λ a. refl) (λ a. refl) v c
Step-Covered wall cal db db' c (adjusted _ (authorized user now id x a _ h)) =
    let k = decide_overtime_hr-Closed wall cal user now id x a db db' h in
    Reviewed-Covered k.request (with_rrhh user now x k.estado k.monto k.referencia) db db'
      (λ a. refl) (λ a. refl) k.reviewed c

-- Whatever requests about attendance are made, in any order, where every request for overtime has an
-- attendance that is closed, with at least its hours and no correction waiting, this holds at the end too.
pub Run-Covered :
    (wall : ℕ → ℕ) (cal : Calendario) (db db' : AsistenciaDb)
    → Covered db
    → Run wall cal db db'
    → Covered db'
Run-Covered wall cal db _ c (stay _) = c
Run-Covered wall cal db db' c (then_step _ mid _ one more) =
    Run-Covered wall cal mid db' (Step-Covered wall cal db mid c one) more
