-- ===== src/Asistencia/Lookup.antt =====
-- What the endpoints about attendance look up: `_editable_period`, `_attendance` and `_current_boss` of
-- src/ssas/personal/infrastructure/http/attendance_adjustments_router.py, and their queries for contracts.
use backend_ssas_rrhh.Base.{
  ℕ, Bool, true, false, not, ◌&&◌, Option, none, some, List, [], ◌∷◌, ◌==◌, leb, same_key, is_some,
  any, find_first, where_rows, add_row, Outcome, ok, ◌>>=◌, ◌>>◌, raise_if, or_raise, if◌then◌else◌,
}
use backend_ssas_rrhh.Session.{Handler}
use backend_ssas_rrhh.Reclutamiento.Lookup.{find_key}
use backend_ssas_rrhh.Nomina.Rows.{Estado, PeriodoNomina}
use backend_ssas_rrhh.Personal.Rows.{
  HttpError, http, User, Contrato, Calendario, is_vigente_contrato, is_pendiente_solicitud,
  own_employee,
}
use backend_ssas_rrhh.Asistencia.Rows.{Fichaje, Correccion, Autorizacion, AsistenciaDb, fichaje_key}

abbrev pub is_abierto : Estado → Bool
is_abierto Estado.abierto = true
is_abierto _ = false

-- The period of a day, if it was opened.
abbrev pub period_of : Calendario → ℕ → ℕ → AsistenciaDb → Option PeriodoNomina
period_of cal company day db =
    find_first
      (λ (p : PeriodoNomina).
        p.empresa_id == company && p.gestion == cal.year day && p.mes == cal.month day)
      db.periodos

-- The period of the day was computed or approved.
abbrev pub is_closed : Calendario → ℕ → ℕ → AsistenciaDb → Bool
is_closed cal company day db = elim (period_of cal company day db) [
  | none ↦ false
  | some p ↦ not (is_abierto p.estado)
]

-- `_editable_period`
abbrev pub editable_period : Calendario → ℕ → ℕ → AsistenciaDb → Outcome HttpError (Unit {0})
editable_period cal company day db =
    raise_if (is_closed cal company day db)
      (http 409 "El periodo de nomina ya fue calculado o aprobado")

-- `_attendance`
abbrev pub attendance : ℕ → ℕ → AsistenciaDb → Outcome HttpError Fichaje
attendance company asistencia_id db =
    or_raise
      (find_key fichaje_key asistencia_id (λ (r : Fichaje). r.empresa_id == company) db.asistencias)
      (http 404 "Asistencia no encontrada")

-- The contract of a worker covers the day.
abbrev pub covers : ℕ → ℕ → ℕ → Contrato → Bool
covers company empleado_id day c =
    c.empresa_id == company
    && c.empleado_id == empleado_id
    && leb c.fecha_inicio day
    && (elim c.fecha_fin [ none ↦ true | some last ↦ leb day last ])

-- A contract in force today makes `boss_id` the head of the worker.
abbrev pub leads : ℕ → ℕ → ℕ → ℕ → Contrato → Bool
leads company boss_id target_id today c =
    covers company target_id today c
    && same_key c.jefe_directo_id (some boss_id)
    && is_vigente_contrato c.estado

-- `_current_boss`
unfoldable pub current_boss : User → ℕ → ℕ → ℕ → AsistenciaDb → Outcome HttpError (Unit {0})
current_boss user company target_id today db = do
  raise_if (not (is_some user.empresa_id))
      (http 403 "La decision corresponde al jefe directo de la empresa")
  (own, boss) ← own_employee user db.personal
  raise_if (boss.id == target_id) (http 403 "No puedes aprobar tu propia asistencia")
  raise_if (not (any (leads company boss.id target_id today) db.personal.contratos))
      (http 403 "No eres el jefe directo vigente de este empleado")

-- The row of the greatest number, the first of them: `.order_by(key.desc())` and the first row.
abbrev pub greatest_by : {A : Type 0} → (A → ℕ) → List A → Option A
greatest_by key [] = none
greatest_by key (x ∷ xs) =
    let rest = greatest_by key xs in
    elim rest [ none ↦ some x | some y ↦ if leb (key y) (key x) then some x else some y ]

-- The latest contract that covers the day.
abbrev pub latest_contract : ℕ → ℕ → ℕ → AsistenciaDb → Outcome HttpError Contrato
latest_contract company empleado_id day db =
    or_raise
      (greatest_by (λ (c : Contrato). c.fecha_inicio)
        (where_rows (covers company empleado_id day) db.personal.contratos))
      (http 409 "No hay contrato para el fichaje")

-- The worker has an attendance of the day.
abbrev pub is_clocked : ℕ → ℕ → ℕ → Fichaje → Bool
is_clocked company empleado_id day r =
    r.empresa_id == company && r.empleado_id == empleado_id && r.fecha == day

-- A new row; the primary key refuses an identifier that is taken.
abbrev pub add_fichaje : Fichaje → Handler AsistenciaDb HttpError Fichaje
add_fichaje row db = do
  raise_if (any (λ (r : Fichaje). r.id == row.id) db.asistencias) (http 500 "Internal Server Error")
  ok (row, record db { asistencias = add_row row db.asistencias })

-- A correction that waits and is about this attendance.
abbrev pub asks_for : ℕ → Correccion → Bool
asks_for asistencia_id c =
    same_key c.asistencia_id (some asistencia_id) && is_pendiente_solicitud c.estado

abbrev pub is_of : ℕ → Autorizacion → Bool
is_of asistencia_id a = a.asistencia_id == asistencia_id
