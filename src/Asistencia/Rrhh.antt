-- ===== src/Asistencia/Rrhh.antt =====
-- The final decision on overtime: `decide_overtime_hr` of
-- src/ssas/personal/infrastructure/http/attendance_adjustments_router.py.
use backend_ssas_rrhh.Base.{
  ℕ, ◌-◌, ◌*◌, ◌/◌, ◌%◌, Bool, true, false, not, ◌&&◌, ◌||◌, Option, none, some, List, [], ◌∷◌,
  String, ◌==◌, ltb, leb, is_some, same_key, find_first, where_rows, Outcome, ok, err, ◌>>=◌, ◌>>◌,
  raise_if, or_raise,
}
use backend_ssas_rrhh.Base.Int.{pos}
use backend_ssas_rrhh.Money.{finite}
use backend_ssas_rrhh.Session.{Handler}
use backend_ssas_rrhh.Payroll.Rules.{PayrollError}
use backend_ssas_rrhh.Payroll.Proration.{calculate_ordinary_overtime}
use backend_ssas_rrhh.Personal.Rows.{
  HttpError, http, User, Trabajador, Contrato, Calendario, PersonalDb, user_tenant,
}
use backend_ssas_rrhh.Asistencia.Rows.{
  Fichaje, Autorizacion, EstadoExtra, AsistenciaDb, is_rrhh_pendiente,
}
use backend_ssas_rrhh.Asistencia.Horas.{hour, date_of, time_of}
use backend_ssas_rrhh.Asistencia.Lookup.{editable_period, attendance, covers}
use backend_ssas_rrhh.Asistencia.Extras.{overtime_request, with_request}

-- `HRDecision`
pub record HrDecision : Type 0 where
  pub aprobar : Bool
  pub observacion : String
  pub monto_autorizado : Option ℕ
  pub referencia_calculo : Option String
  pub calculo_automatico : Bool
  pub dia_no_feriado_confirmado : Bool

-- Ordinal 7 is a Sunday: `row.fecha.weekday() == 6`.
abbrev pub is_sunday : ℕ → Bool
is_sunday fecha = fecha % 7 == 0

-- The overtime is at the end of the day, between six and twenty hours of one day.
abbrev pub is_diurnal : (ℕ → ℕ) → ℕ → ℕ → ℕ → Bool
is_diurnal wall fecha salida horas =
    let end = wall salida in
    let start = end - horas * (hour / 100) in
    date_of start == fecha
    && date_of end == fecha
    && leb (6 * hour) (time_of start)
    && leb (time_of end) (20 * hour)

-- `str(exc)` of what `calculate_ordinary_overtime` raises.
abbrev pub overtime_text : PayrollError → String
overtime_text PayrollError.hora_extra_invalida = "Datos invalidos para hora extra diurna ordinaria"
overtime_text PayrollError.hora_extra_cero = "El importe de hora extra redondea a cero"
overtime_text _ = ""

abbrev pub payroll_error : {A : Type 0} → Outcome PayrollError A → Outcome HttpError A
payroll_error (ok a) = ok a
payroll_error (err e) = err (http 409 (overtime_text e))

abbrev pub sole_contract : List Contrato → Outcome HttpError Contrato
sole_contract (c ∷ []) = ok c
sole_contract _ = err (http 409 "Se requiere un contrato unico para calcular horas extra")

-- The departure, if the hours that are asked for were clocked.
abbrev pub clocked_departure : Autorizacion → Fichaje → Outcome HttpError ℕ
clocked_departure request row = elim row.hora_salida [
  | none ↦ err (http 409 "Las horas autorizadas no coinciden con el fichaje")
  | some salida ↦
      raise_if (ltb row.horas_extra request.horas_solicitadas || row.horas_extra == 0)
        (http 409 "Las horas autorizadas no coinciden con el fichaje")
      >> ok salida
]

-- The amount by the rule for diurnal hours of an ordinary day.
unfoldable pub automatic_amount :
    (ℕ → ℕ) → ℕ → HrDecision → Autorizacion → Fichaje → AsistenciaDb → Outcome HttpError ℕ
automatic_amount wall company x request row db = do
  raise_if (is_some x.monto_autorizado || is_some x.referencia_calculo)
      (http 422 "El calculo automatico no admite un importe manual")
  raise_if (not x.dia_no_feriado_confirmado || is_sunday row.fecha)
      (http 409 "Dia no confirmado como ordinario; requiere revision")
  salida ← clocked_departure request row
  raise_if (not (is_diurnal wall row.fecha salida request.horas_solicitadas))
      (http 409 "Horario nocturno o entre dias; requiere revision")
  contract ←
      sole_contract
        (where_rows (covers company request.empleado_id row.fecha) db.personal.contratos)
  payroll_error (
      calculate_ordinary_overtime (finite (pos contract.salario_basico))
        (finite (pos (contract.horas_jornada * 100)))
        (finite (pos (request.horas_solicitadas * 100))))

abbrev manual_amount : HrDecision → Outcome HttpError (ℕ × String)
manual_amount x = do
  amount ← or_raise x.monto_autorizado (http 422 "Indica monto y referencia de calculo verificados")
  text ← or_raise x.referencia_calculo (http 422 "Indica monto y referencia de calculo verificados")
  ok (amount, text)

-- The amount and the reference that an approval records.
unfoldable pub authorized_pay :
    (ℕ → ℕ)
    → ℕ
    → HrDecision
    → Autorizacion
    → Fichaje
    → AsistenciaDb
    → Outcome HttpError (ℕ × String)
unfolding automatic_amount
authorized_pay wall company x request row db = elim x.calculo_automatico [
  | true ↦ automatic_amount wall company x request row db >>= λ amount.
      ok (amount, "AUTO_DIURNA_30D_100PCT")
  | false ↦ manual_amount x
]

abbrev pub with_rrhh :
    User → ℕ → HrDecision → EstadoExtra → Option ℕ → Option String → Autorizacion → Autorizacion
with_rrhh user now x estado monto referencia a = record a {
  estado = estado;
  monto_autorizado = monto;
  referencia_calculo = referencia;
  rrhh_id = some user.id;
  rrhh_en = some now;
  observacion = some x.observacion;
}

-- The worker of the account in the company: `own_employee == request.empleado_id`.
abbrev pub is_own : ℕ → ℕ → ℕ → PersonalDb → Bool
is_own company user_id empleado_id db =
    elim (find_first
      (λ (t : Trabajador). same_key t.usuario_id (some user_id) && t.empresa_id == company)
      db.trabajadores) [ none ↦ false | some t ↦ t.id == empleado_id ]

-- The checks before the decision: the request, confirmed by another person, and its attendance.
unfoldable pub check_overtime :
    Calendario → User → ℕ → AsistenciaDb → Outcome HttpError (ℕ × Autorizacion × Fichaje)
check_overtime cal user solicitud_id db = do
  company ← user_tenant user none
  request ← overtime_request company solicitud_id db
  raise_if (not (is_rrhh_pendiente request.estado))
      (http 409 "Primero debe confirmar el jefe directo")
  raise_if (same_key request.jefe_id (some user.id))
      (http 403 "La autorizacion final requiere otra persona")
  raise_if (is_own company user.id request.empleado_id db.personal)
      (http 403 "No puedes autorizar tus propias horas extra")
  row ← attendance company request.asistencia_id db
  editable_period cal company row.fecha db
  ok (company, request, row)

unfoldable pub decide_overtime_hr :
    (ℕ → ℕ) → Calendario → User → ℕ → ℕ → HrDecision → Handler AsistenciaDb HttpError Autorizacion
decide_overtime_hr wall cal user now solicitud_id x db =
    check_overtime cal user solicitud_id db >>= λ (company, request, row). elim x.aprobar [
      | true ↦ authorized_pay wall company x request row db >>= λ (amount, text).
          with_request (with_rrhh user now x EstadoExtra.autorizado (some amount) (some text))
            request db
      | false ↦
          with_request
            (with_rrhh user now x EstadoExtra.rechazado request.monto_autorizado
              request.referencia_calculo)
            request db
    ]
