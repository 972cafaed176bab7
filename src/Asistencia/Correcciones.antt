-- ===== src/Asistencia/Correcciones.antt =====
-- Corrections of an attendance: `request_correction` of
-- src/ssas/personal/infrastructure/http/attendance_adjustments_router.py.
use backend_ssas_rrhh.Base.{
  ℕ, Bool, false, not, ◌&&◌, ◌||◌, Option, none, some, String, ◌==◌, ltb, leb, any, add_row,
  Outcome, ok, ◌>>=◌, ◌>>◌, raise_if,
}
use backend_ssas_rrhh.Session.{Handler}
use backend_ssas_rrhh.Personal.Rows.{
  HttpError, http, User, Calendario, EstadoSolicitud, is_pendiente_solicitud, own_employee,
}
use backend_ssas_rrhh.Asistencia.Rows.{Fichaje, Correccion, AsistenciaDb}
use backend_ssas_rrhh.Asistencia.Horas.{date_of}
use backend_ssas_rrhh.Asistencia.Lookup.{editable_period, attendance, is_clocked, is_of}

-- `CorrectionInput`
pub record CorrectionInput : Type 0 where
  pub fecha : ℕ
  pub asistencia_id : Option ℕ
  pub nueva_entrada : ℕ
  pub nueva_salida : ℕ
  pub motivo : String

-- The attendance that is to be corrected, or none for a day without one.
unfoldable pub target_row :
    ℕ → ℕ → CorrectionInput → AsistenciaDb → Outcome HttpError (Option Fichaje)
target_row company empleado_id x db = elim x.asistencia_id [
  | none ↦
      raise_if (any (is_clocked company empleado_id x.fecha) db.asistencias)
        (http 409 "Ya existe un fichaje; indica asistencia_id para corregirlo")
      >> ok none
  | some id ↦ attendance company id db >>= λ row.
      raise_if (not (row.empleado_id == empleado_id) || not (row.fecha == x.fecha))
        (http 403 "No es tu asistencia de esa fecha")
      >> ok (some row)
]

abbrev pub is_pendiente_for : ℕ → ℕ → ℕ → Correccion → Bool
is_pendiente_for company empleado_id fecha c =
    c.empresa_id == company
    && c.empleado_id == empleado_id
    && c.fecha == fecha
    && is_pendiente_solicitud c.estado

abbrev pub row_id : Option Fichaje → Option ℕ
row_id none = none
row_id (some r) = some r.id

-- The attendance has a request for overtime.
abbrev pub has_extra : Option Fichaje → AsistenciaDb → Bool
has_extra none db = false
has_extra (some r) db = any (is_of r.id) db.autorizaciones

abbrev pub new_correccion : ℕ → ℕ → ℕ → Option ℕ → CorrectionInput → Correccion
new_correccion new_id company empleado_id asistencia_id x = record {
  id = new_id;
  empresa_id = company;
  empleado_id = empleado_id;
  asistencia_id = asistencia_id;
  fecha = x.fecha;
  nueva_entrada = x.nueva_entrada;
  nueva_salida = x.nueva_salida;
  motivo = x.motivo;
  estado = EstadoSolicitud.pendiente;
  observacion_jefe = none;
  resuelto_por_id = none;
  resuelto_en = none;
}

unfoldable pub request_correction :
    (ℕ → ℕ)
    → Calendario
    → User
    → ℕ
    → ℕ
    → CorrectionInput
    → Handler AsistenciaDb HttpError Correccion
request_correction wall cal user now new_id x db = do
  (company, worker) ← own_employee user db.personal
  raise_if (ltb (date_of (wall now)) x.fecha) (http 422 "No se puede corregir un dia futuro")
  row ← target_row company worker.id x db
  editable_period cal company x.fecha db
  raise_if (not (date_of (wall x.nueva_entrada) == x.fecha))
      (http 422 "La nueva entrada debe corresponder al dia fichado")
  raise_if (leb x.nueva_salida x.nueva_entrada)
      (http 422 "La salida debe ser posterior a la entrada")
  raise_if (any (is_pendiente_for company worker.id x.fecha) db.correcciones)
      (http 409 "Ya hay una correccion pendiente")
  raise_if (has_extra row db) (http 409 "Resuelve la autorizacion de horas extra antes de corregir")
  let request = new_correccion new_id company worker.id (row_id row) x
  ok (request, record db { correcciones = add_row request db.correcciones })
