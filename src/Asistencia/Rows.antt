-- ===== src/Asistencia/Rows.antt =====
-- The tables of attendance (src/ssas/personal/infrastructure/persistence/models.py). Keys are numbers,
-- dates are ordinals, instants are microseconds, hours are hundredths, amounts are ten-thousandths,
-- degrees are millionths.
use backend_ssas_rrhh.Base.{ℕ, Bool, true, false, Option, List, String}
use backend_ssas_rrhh.Base.Int.{ℤ}
use backend_ssas_rrhh.Nomina.Rows.{PeriodoNomina}
use backend_ssas_rrhh.Personal.Rows.{EstadoSolicitud, PersonalDb}

-- `asistencia`
pub record Fichaje : Type 0 where
  pub id : ℕ
  pub empresa_id : ℕ
  pub empleado_id : ℕ
  pub fecha : ℕ
  pub hora_entrada : ℕ
  pub hora_salida : Option ℕ
  pub lat_entrada : Option ℤ
  pub lon_entrada : Option ℤ
  pub lat_salida : Option ℤ
  pub lon_salida : Option ℤ
  pub horas_trabajadas : ℕ
  pub horas_extra : ℕ
  pub minutos_retraso : ℕ
  pub origen : String

-- `solicitud_correccion_asistencia`
pub record Correccion : Type 0 where
  pub id : ℕ
  pub empresa_id : ℕ
  pub empleado_id : ℕ
  pub asistencia_id : Option ℕ
  pub fecha : ℕ
  pub nueva_entrada : ℕ
  pub nueva_salida : ℕ
  pub motivo : String
  pub estado : EstadoSolicitud
  pub observacion_jefe : Option String
  pub resuelto_por_id : Option ℕ
  pub resuelto_en : Option ℕ

-- `autorizacion_horas_extra.estado`
pub data EstadoExtra : Type 0 where
  jefe_pendiente rrhh_pendiente autorizado rechazado : EstadoExtra

-- `autorizacion_horas_extra`
pub record Autorizacion : Type 0 where
  pub id : ℕ
  pub empresa_id : ℕ
  pub empleado_id : ℕ
  pub asistencia_id : ℕ
  pub horas_solicitadas : ℕ
  pub motivo : String
  pub estado : EstadoExtra
  pub jefe_id : Option ℕ
  pub jefe_en : Option ℕ
  pub rrhh_id : Option ℕ
  pub rrhh_en : Option ℕ
  pub monto_autorizado : Option ℕ
  pub referencia_calculo : Option String
  pub observacion : Option String

pub record AsistenciaDb : Type 0 where
  pub personal : PersonalDb
  pub periodos : List PeriodoNomina
  pub asistencias : List Fichaje
  pub correcciones : List Correccion
  pub autorizaciones : List Autorizacion

abbrev pub is_jefe_pendiente : EstadoExtra → Bool
is_jefe_pendiente EstadoExtra.jefe_pendiente = true
is_jefe_pendiente _ = false

abbrev pub is_rrhh_pendiente : EstadoExtra → Bool
is_rrhh_pendiente EstadoExtra.rrhh_pendiente = true
is_rrhh_pendiente _ = false

abbrev pub fichaje_key : Fichaje → ℕ
fichaje_key r = r.id

abbrev pub correccion_key : Correccion → ℕ
correccion_key c = c.id

abbrev pub autorizacion_key : Autorizacion → ℕ
autorizacion_key a = a.id
