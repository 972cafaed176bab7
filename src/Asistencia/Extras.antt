-- ===== src/Asistencia/Extras.antt =====
-- Overtime: `request_overtime` and `decide_overtime_boss` of
-- src/ssas/personal/infrastructure/http/attendance_adjustments_router.py.
use backend_ssas_rrhh.Base.{
  ℕ, not, ◌||◌, none, some, String, ◌==◌, ltb, is_some, any, add_row, Outcome, ok, ◌>>=◌, ◌>>◌,
  raise_if, or_raise, if◌then◌else◌,
}
use backend_ssas_rrhh.Session.{Handler}
use backend_ssas_rrhh.Reclutamiento.Lookup.{find_key, update_key}
use backend_ssas_rrhh.Personal.Rows.{HttpError, http, User, Calendario, user_tenant, own_employee}
use backend_ssas_rrhh.Asistencia.Rows.{
  Autorizacion, EstadoExtra, AsistenciaDb, autorizacion_key, is_jefe_pendiente,
}
use backend_ssas_rrhh.Asistencia.Horas.{date_of}
use backend_ssas_rrhh.Asistencia.Lookup.{editable_period, attendance, current_boss, asks_for, is_of}
use backend_ssas_rrhh.Asistencia.Decisiones.{BossDecision}

-- `OvertimeInput`
pub record OvertimeInput : Type 0 where
  pub asistencia_id : ℕ
  pub horas_solicitadas : ℕ
  pub motivo : String

abbrev pub new_autorizacion : ℕ → ℕ → ℕ → OvertimeInput → Autorizacion
new_autorizacion new_id company empleado_id x = record {
  id = new_id;
  empresa_id = company;
  empleado_id = empleado_id;
  asistencia_id = x.asistencia_id;
  horas_solicitadas = x.horas_solicitadas;
  motivo = x.motivo;
  estado = EstadoExtra.jefe_pendiente;
  jefe_id = none;
  jefe_en = none;
  rrhh_id = none;
  rrhh_en = none;
  monto_autorizado = none;
  referencia_calculo = none;
  observacion = none;
}

unfoldable pub request_overtime :
    Calendario → User → ℕ → OvertimeInput → Handler AsistenciaDb HttpError Autorizacion
request_overtime cal user new_id x db = do
  (company, worker) ← own_employee user db.personal
  row ← attendance company x.asistencia_id db
  raise_if (not (row.empleado_id == worker.id)) (http 403 "No es tu asistencia")
  editable_period cal company row.fecha db
  raise_if (not (is_some row.hora_salida) || ltb row.horas_extra x.horas_solicitadas)
      (http 422 "Las horas solicitadas superan las fichadas")
  raise_if (any (is_of x.asistencia_id) db.autorizaciones)
      (http 409 "Las horas extra ya tienen solicitud")
  raise_if (any (asks_for x.asistencia_id) db.correcciones)
      (http 409 "Primero debe resolverse la correccion pendiente")
  let request = new_autorizacion new_id company worker.id x
  ok (request, record db { autorizaciones = add_row request db.autorizaciones })

-- The request of the company.
abbrev pub overtime_request : ℕ → ℕ → AsistenciaDb → Outcome HttpError Autorizacion
overtime_request company solicitud_id db =
    or_raise
      (find_key autorizacion_key solicitud_id (λ (a : Autorizacion). a.empresa_id == company)
        db.autorizaciones)
      (http 404 "Solicitud no encontrada")

abbrev pub with_jefe : User → ℕ → BossDecision → Autorizacion → Autorizacion
with_jefe user now x a = record a {
  estado = if x.aprobar then EstadoExtra.rrhh_pendiente else EstadoExtra.rechazado;
  jefe_id = some user.id;
  jefe_en = some now;
  observacion = some x.observacion;
}

-- The table of requests with the one of the key changed.
abbrev pub with_request :
    (Autorizacion → Autorizacion) → Autorizacion → Handler AsistenciaDb HttpError Autorizacion
with_request f request db = ok (
  f request,
  record db { autorizaciones = update_key autorizacion_key request.id f db.autorizaciones },
)

unfoldable pub decide_overtime_boss :
    (ℕ → ℕ) → Calendario → User → ℕ → ℕ → BossDecision → Handler AsistenciaDb HttpError Autorizacion
decide_overtime_boss wall cal user now solicitud_id x db = do
  company ← user_tenant user none
  request ← overtime_request company solicitud_id db
  raise_if (not (is_jefe_pendiente request.estado))
      (http 409 "La solicitud ya fue revisada por el jefe")
  current_boss user company request.empleado_id (date_of (wall now)) db
  row ← attendance company request.asistencia_id db
  editable_period cal company row.fecha db
  with_request (with_jefe user now x) request db
