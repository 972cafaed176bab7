-- ===== src/Asistencia/Decisiones.antt =====
-- The decision on a correction: `decide_correction` of
-- src/ssas/personal/infrastructure/http/attendance_adjustments_router.py.
use backend_ssas_rrhh.Base.{
  ℕ, Bool, true, false, not, ◌||◌, Option, none, some, String, ◌==◌, any, Outcome, ok, ◌>>=◌, ◌>>◌,
  raise_if, or_raise, if◌then◌else◌,
}
use backend_ssas_rrhh.Session.{Handler}
use backend_ssas_rrhh.Reclutamiento.Lookup.{find_key, update_key}
use backend_ssas_rrhh.Personal.Rows.{
  HttpError, http, User, Calendario, EstadoSolicitud, is_pendiente_solicitud, user_tenant,
}
use backend_ssas_rrhh.Asistencia.Rows.{
  Fichaje, Correccion, AsistenciaDb, fichaje_key, correccion_key,
}
use backend_ssas_rrhh.Asistencia.Horas.{date_of, minutes_late, worked_hours}
use backend_ssas_rrhh.Asistencia.Lookup.{
  editable_period, attendance, current_boss, latest_contract, is_clocked, add_fichaje,
}
use backend_ssas_rrhh.Asistencia.Fichar.{value_error}

-- `BossDecision`
pub record BossDecision : Type 0 where
  pub aprobar : Bool
  pub observacion : String

-- The attendance that the request names, of the same worker and day.
unfoldable pub corrected_row : ℕ → Correccion → AsistenciaDb → Outcome HttpError (Option Fichaje)
corrected_row company request db = elim request.asistencia_id [
  | none ↦ ok none
  | some id ↦ attendance company id db >>= λ row.
      raise_if (not (row.empleado_id == request.empleado_id) || not (row.fecha == request.fecha))
        (http 409 "El fichaje no coincide con la solicitud")
      >> ok (some row)
]

abbrev pub manual_fichaje : ℕ → ℕ → Correccion → Fichaje
manual_fichaje new_id company request = record {
  id = new_id;
  empresa_id = company;
  empleado_id = request.empleado_id;
  fecha = request.fecha;
  hora_entrada = request.nueva_entrada;
  hora_salida = some request.nueva_salida;
  lat_entrada = none;
  lon_entrada = none;
  lat_salida = none;
  lon_salida = none;
  horas_trabajadas = 0;
  horas_extra = 0;
  minutos_retraso = 0;
  origen = "MANUAL";
}

-- The attendance that is there, or a new one.
unfoldable pub row_or_new :
    ℕ → ℕ → Correccion → Option Fichaje → Handler AsistenciaDb HttpError Fichaje
row_or_new new_id company request row db = elim row [
  | some r ↦ ok (r, db)
  | none ↦
      raise_if (any (is_clocked company request.empleado_id request.fecha) db.asistencias)
        (http 409 "Ya se registro un fichaje para esa fecha")
      >> add_fichaje (manual_fichaje new_id company request) db
]

abbrev pub with_times : Correccion → ℕ → ℕ → ℕ → Fichaje → Fichaje
with_times request worked overtime late r = record r {
  hora_entrada = request.nueva_entrada;
  hora_salida = some request.nueva_salida;
  horas_trabajadas = worked;
  horas_extra = overtime;
  minutos_retraso = late;
  lat_entrada = none;
  lon_entrada = none;
  lat_salida = none;
  lon_salida = none;
  origen = "MANUAL";
}

-- The attendance with the times of the request; its identifier.
unfoldable pub correct_row :
    (ℕ → ℕ) → ℕ → ℕ → Correccion → Option Fichaje → Handler AsistenciaDb HttpError ℕ
correct_row wall new_id company request row db = do
  contract ← latest_contract company request.empleado_id request.fecha db
  (worked, overtime) ← value_error 422 (
      worked_hours request.nueva_entrada request.nueva_salida contract.minutos_descanso
        contract.horas_jornada)
  (target, db') ← row_or_new new_id company request row db
  let late = minutes_late (wall request.nueva_entrada) contract.hora_entrada_programada
  ok (
    target.id,
    record db' {
      asistencias =
          update_key fichaje_key target.id (with_times request worked overtime late)
            db'.asistencias;
    },
  )

abbrev pub resolved : User → ℕ → BossDecision → Option ℕ → Correccion → Correccion
resolved user now x asistencia_id c = record c {
  asistencia_id = asistencia_id;
  estado = if x.aprobar then EstadoSolicitud.aprobada else EstadoSolicitud.rechazada;
  observacion_jefe = some x.observacion;
  resuelto_por_id = some user.id;
  resuelto_en = some now;
}

abbrev settle_correction :
    User → ℕ → BossDecision → Correccion → Option ℕ → Handler AsistenciaDb HttpError Correccion
settle_correction user now x request asistencia_id db = ok (
  resolved user now x asistencia_id request,
  record db {
    correcciones =
        update_key correccion_key request.id (resolved user now x asistencia_id) db.correcciones;
  },
)

-- The checks before the decision: the request, and the attendance that it names.
unfoldable pub check_correction :
    (ℕ → ℕ)
    → Calendario
    → User
    → ℕ
    → ℕ
    → AsistenciaDb
    → Outcome HttpError (ℕ × Correccion × Option Fichaje)
check_correction wall cal user now solicitud_id db = do
  company ← user_tenant user none
  request ←
      or_raise
        (find_key correccion_key solicitud_id (λ (c : Correccion). c.empresa_id == company)
          db.correcciones)
        (http 404 "Solicitud no encontrada")
  raise_if (not (is_pendiente_solicitud request.estado)) (http 409 "Solicitud ya resuelta")
  current_boss user company request.empleado_id (date_of (wall now)) db
  editable_period cal company request.fecha db
  row ← corrected_row company request db
  ok (company, request, row)

unfoldable pub decide_correction :
    (ℕ → ℕ)
    → Calendario
    → User
    → ℕ
    → ℕ
    → ℕ
    → BossDecision
    → Handler AsistenciaDb HttpError Correccion
decide_correction wall cal user now new_id solicitud_id x db =
    check_correction wall cal user now solicitud_id db >>= λ (company, request, row).
    elim x.aprobar [
      | true ↦ correct_row wall new_id company request row db >>= λ (id, db').
          settle_correction user now x request (some id) db'
      | false ↦ settle_correction user now x request request.asistencia_id db
    ]
