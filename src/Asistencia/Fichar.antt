-- ===== src/Asistencia/Fichar.antt =====
-- `clock_in` and `clock_out` of src/ssas/personal/infrastructure/http/router.py.
use backend_ssas_rrhh.Base.{
  ℕ, ◌+◌, Bool, not, ◌&&◌, none, some, String, ◌==◌, leb, is_some, any, find_first, where_rows,
  Outcome, ok, err, ◌>>=◌, ◌>>◌, raise_if, or_raise,
}
use backend_ssas_rrhh.Base.Int.{ℤ}
use backend_ssas_rrhh.Session.{Handler}
use backend_ssas_rrhh.Reclutamiento.Lookup.{update_key}
use backend_ssas_rrhh.Personal.Rows.{
  HttpError, http, User, Contrato, is_vigente_contrato, own_employee,
}
use backend_ssas_rrhh.Asistencia.Rows.{Fichaje, AsistenciaDb, fichaje_key}
use backend_ssas_rrhh.Asistencia.Horas.{day, date_of, minutes_late, worked_hours}
use backend_ssas_rrhh.Asistencia.Lookup.{
  covers, greatest_by, latest_contract, is_clocked, add_fichaje,
}

-- `GPSInput`
pub record GpsInput : Type 0 where
  pub latitud : ℤ
  pub longitud : ℤ

abbrev pub new_fichaje : ℕ → ℕ → ℕ → ℕ → ℕ → ℕ → GpsInput → Fichaje
new_fichaje new_id company empleado_id local_date now late gps = record {
  id = new_id;
  empresa_id = company;
  empleado_id = empleado_id;
  fecha = local_date;
  hora_entrada = now;
  hora_salida = none;
  lat_entrada = some gps.latitud;
  lon_entrada = some gps.longitud;
  lat_salida = none;
  lon_salida = none;
  horas_trabajadas = 0;
  horas_extra = 0;
  minutos_retraso = late;
  origen = "MOVIL";
}

-- `wall` is the wall clock in La Paz of an instant.
unfoldable pub clock_in : (ℕ → ℕ) → User → ℕ → ℕ → GpsInput → Handler AsistenciaDb HttpError Fichaje
clock_in wall user now new_id gps db = do
  (company, worker) ← own_employee user db.personal
  let local_date = date_of (wall now)
  active ←
      or_raise
        (find_first
          (λ (c : Contrato). covers company worker.id local_date c && is_vigente_contrato c.estado)
          db.personal.contratos)
        (http 409 "No hay contrato vigente para este dia")
  raise_if (any (is_clocked company worker.id local_date) db.asistencias)
      (http 409 "La entrada de hoy ya fue registrada")
  let late = minutes_late (wall now) active.hora_entrada_programada
  add_fichaje (new_fichaje new_id company worker.id local_date now late gps) db

-- An attendance of the worker that is open, and began in the last 24 hours.
abbrev pub is_open : ℕ → ℕ → ℕ → Fichaje → Bool
is_open company empleado_id now r =
    r.empresa_id == company
    && r.empleado_id == empleado_id
    && not (is_some r.hora_salida)
    && leb now (r.hora_entrada + day)

-- The text of a `ValueError` as the answer to a request.
abbrev pub value_error : {A : Type 0} → ℕ → Outcome String A → Outcome HttpError A
value_error status (ok a) = ok a
value_error status (err e) = err (http status e)

abbrev pub with_salida : ℕ → GpsInput → ℕ → ℕ → Fichaje → Fichaje
with_salida now gps worked overtime r = record r {
  hora_salida = some now;
  lat_salida = some gps.latitud;
  lon_salida = some gps.longitud;
  horas_trabajadas = worked;
  horas_extra = overtime;
}

unfoldable pub clock_out : User → ℕ → GpsInput → Handler AsistenciaDb HttpError Fichaje
clock_out user now gps db = do
  (company, worker) ← own_employee user db.personal
  row ←
      or_raise
        (greatest_by (λ (r : Fichaje). r.hora_entrada)
          (where_rows (is_open company worker.id now) db.asistencias))
        (http 409 "No hay entrada abierta hoy")
  raise_if (is_some row.hora_salida) (http 409 "No hay entrada abierta hoy")
  contract ← latest_contract company worker.id row.fecha db
  (worked, overtime) ←
      value_error 409
        (worked_hours row.hora_entrada now contract.minutos_descanso contract.horas_jornada)
  ok (
    with_salida now gps worked overtime row,
    record db {
      asistencias =
          update_key fichaje_key row.id (with_salida now gps worked overtime) db.asistencias;
    },
  )
