-- ===== src/Asistencia/Tests.antt =====
-- Instances of the properties of attendance: the hours, and overtime from the request to the payroll.
use backend_ssas_rrhh.Base.{
  ℕ, ◌≡◌, ◌≢◌, ◌≤◌, ◌<◌, ◌+◌, ◌*◌, ◌-◌, refl, inl, true, none, some, [], ◌∷◌, ok, err, ltb,
  if◌then◌else◌,
}
use backend_ssas_rrhh.Nomina.Rows.{NominaDb, NominaError}
use backend_ssas_rrhh.Nomina.Review.{authorized_amount, entry_amount}
use backend_ssas_rrhh.Personal.Rows.{
  User, Trabajador, Contrato, EstadoContrato, PersonalDb, Calendario, user_tenant, own_employee,
}
use backend_ssas_rrhh.Asistencia.Rows.{Fichaje, Autorizacion, EstadoExtra, AsistenciaDb}
use backend_ssas_rrhh.Asistencia.Horas.{hour, minute, minutes_late, worked_hours}
use backend_ssas_rrhh.Asistencia.Lookup.{current_boss}
use backend_ssas_rrhh.Asistencia.Decisiones.{BossDecision}
use backend_ssas_rrhh.Asistencia.Extras.{
  OvertimeInput, new_autorizacion, with_jefe, request_overtime, decide_overtime_boss,
}
use backend_ssas_rrhh.Asistencia.Rrhh.{
  HrDecision, with_rrhh, automatic_amount, authorized_pay, check_overtime, decide_overtime_hr,
}
use backend_ssas_rrhh.Asistencia.Requests.{
  Run, claimed, confirmed, authorized, adjusted, stay, then_step,
}
use backend_ssas_rrhh.Asistencia.Cubiertas.{Covered}
use backend_ssas_rrhh.Asistencia.Cubiertas.Runs.{Run-Covered}
use backend_ssas_rrhh.Asistencia.Manos.{TwoHands, Run-TwoHands}
use backend_ssas_rrhh.Asistencia.Pago.{payroll_view, payroll_row, Run-entry_amount}
use backend_ssas_rrhh.Asistencia.Redondeo.{worked_hours-nearest}
use backend_ssas_rrhh.Payroll.Proration.{finite_positive, calculate_ordinary_overtime}
use backend_ssas_rrhh.Money.{positive, quantize_ratio}

-- Ten hours with a break of one, of which eight are scheduled.
worked_nine : worked_hours 892800000000 928800000000 60 800 ≡ ok (900, 100)
unfolding worked_hours
worked_nine = refl

-- 1 h 20 min 18 s less a break of 50 minutes are 0.505 hours exactly, which the decimals of 28 digits
-- bring below the tie.
worked_tie : worked_hours 0 4818000000 50 800 ≡ ok (50, 0)
unfolding worked_hours
worked_tie = refl

late_quarter : minutes_late 893700000000 480 ≡ 15
unfolding minutes_late
late_quarter = refl

worked_hours-nearest_example :
    (0 < 928800000000 - 892800000000)
    × (928800000000 - 892800000000 ≤ 24 * hour)
    × (900 * 36000000 + 60 * minute ≤ 928800000000 - 892800000000 + 18000000)
    × (928800000000 - 892800000000 ≤ 900 * 36000000 + 60 * minute + 18000000)
    × (100 ≡ 900 - 800)
worked_hours-nearest_example =
    worked_hours-nearest 892800000000 928800000000 60 800 900 100 worked_nine

-- Two years, of one month each: the second one begins on the day 100.
abbrev pub two_years : Calendario
two_years = record {
  year = λ day. if ltb day 100 then 0 else 1;
  month = λ day. 1;
  first_day = λ y. y;
  last_day = λ y. 99;
}

abbrev pub same_clock : ℕ → ℕ
same_clock t = t

abbrev pub worker : Trabajador
worker = record {
  id = 5;
  empresa_id = 1;
  usuario_id = some 50;
  estado = "ACTIVO";
  fecha_ingreso = 1;
  fecha_salida = none;
}

abbrev head : Trabajador
head = record worker { id = 6; usuario_id = some 60 }

abbrev contract : Contrato
contract = record {
  id = 1;
  empresa_id = 1;
  empleado_id = 5;
  cargo_id = 1;
  departamento_id = 1;
  jefe_directo_id = some 6;
  contrato_anterior_id = none;
  numero_contrato = "C-1";
  hora_entrada_programada = 480;
  horas_jornada = 800;
  minutos_descanso = 60;
  salario_basico = 30000000;
  fecha_inicio = 1;
  fecha_fin = none;
  estado = EstadoContrato.vigente;
}

abbrev people : PersonalDb
people = record {
  trabajadores = worker ∷ head ∷ [];
  contratos = contract ∷ [];
  tipos = [];
  saldos = [];
  solicitudes = [];
  documentos = [];
  cargos = [];
  departamentos = [];
  boletas_aprobadas = [];
}

abbrev pub account : ℕ → User
account id = record { id = id; empresa_id = some 1; roles = [] }

-- The day 110, from eight to eighteen hours.
abbrev pub long_day : Fichaje
long_day = record {
  id = 2;
  empresa_id = 1;
  empleado_id = 5;
  fecha = 110;
  hora_entrada = 9532800000000;
  hora_salida = some 9568800000000;
  lat_entrada = none;
  lon_entrada = none;
  lat_salida = none;
  lon_salida = none;
  horas_trabajadas = 900;
  horas_extra = 100;
  minutos_retraso = 0;
  origen = "MOVIL";
}

abbrev pub clocked : AsistenciaDb
clocked = record {
  personal = people;
  periodos = [];
  asistencias = long_day ∷ [];
  correcciones = [];
  autorizaciones = [];
}

abbrev an_hour : OvertimeInput
an_hour = record { asistencia_id = 2; horas_solicitadas = 100; motivo = "Cierre" }

abbrev pub yes_boss : BossDecision
yes_boss = record { aprobar = true; observacion = "Conforme" }

abbrev pub yes_hr : HrDecision
yes_hr = record {
  aprobar = true;
  observacion = "Conforme";
  monto_autorizado = none;
  referencia_calculo = none;
  calculo_automatico = true;
  dia_no_feriado_confirmado = true;
}

abbrev pub asked_hour : Autorizacion
asked_hour = new_autorizacion 9 1 5 an_hour

abbrev confirmed_hour : Autorizacion
confirmed_hour = with_jefe (account 60) 9590400000000 yes_boss asked_hour

-- An hour of a thirtieth of 3000 over eight hours, twice: 25.
abbrev paid_hour : Autorizacion
paid_hour =
    with_rrhh (account 70) 9590400000001 yes_hr EstadoExtra.autorizado (some 250000)
      (some "AUTO_DIURNA_30D_100PCT") confirmed_hour

abbrev pub with_extra : Autorizacion → AsistenciaDb
with_extra a = record clocked { autorizaciones = a ∷ [] }

claim_step :
    request_overtime two_years (account 50) 9 an_hour clocked
    ≡ ok (asked_hour, with_extra asked_hour)
unfolding request_overtime own_employee
claim_step = refl

confirm_step :
    decide_overtime_boss same_clock two_years
      (account 60)
      9590400000000
      9
      yes_boss
      (with_extra asked_hour)
    ≡ ok (confirmed_hour, with_extra confirmed_hour)
unfolding decide_overtime_boss current_boss own_employee user_tenant
confirm_step = refl

authorize_step :
    decide_overtime_hr same_clock two_years
      (account 70)
      9590400000001
      9
      yes_hr
      (with_extra confirmed_hour)
    ≡ ok (paid_hour, with_extra paid_hour)
unfolding decide_overtime_hr check_overtime authorized_pay automatic_amount user_tenant
    calculate_ordinary_overtime finite_positive positive quantize_ratio
authorize_step = refl

abbrev extra_run : Run same_clock two_years clocked (with_extra paid_hour)
extra_run =
    then_step clocked (with_extra asked_hour) (with_extra paid_hour)
      (adjusted (with_extra asked_hour)
        (claimed (account 50) 9 an_hour asked_hour (with_extra asked_hour) claim_step))
      (then_step (with_extra asked_hour) (with_extra confirmed_hour) (with_extra paid_hour)
        (adjusted (with_extra confirmed_hour) (
          confirmed (account 60) 9590400000000 9 yes_boss confirmed_hour (with_extra confirmed_hour)
            confirm_step))
        (then_step (with_extra confirmed_hour) (with_extra paid_hour) (with_extra paid_hour)
          (adjusted (with_extra paid_hour) (
            authorized (account 70) 9590400000001 9 yes_hr paid_hour (with_extra paid_hour)
              authorize_step))
          (stay (with_extra paid_hour))))

clocked-Covered : Covered clocked
clocked-Covered = record { distinct = (refl, tt); backed = tt }

Run-Covered_example : Covered (with_extra paid_hour)
Run-Covered_example =
    Run-Covered same_clock two_years clocked (with_extra paid_hour) clocked-Covered extra_run

Run-TwoHands_example : TwoHands (with_extra paid_hour)
Run-TwoHands_example = Run-TwoHands same_clock two_years clocked (with_extra paid_hour) tt extra_run

abbrev no_payroll : NominaDb
no_payroll = record {
  parametros = [];
  valores = [];
  estructuras = [];
  reglas = [];
  periodos = [];
  impuestos = [];
  haberes = [];
  empleados = [];
  contratos = [];
  tipos_ausencia = [];
  ausencias = [];
  correcciones = [];
  asistencias = [];
  autorizaciones = [];
  boletas = [];
  detalles = [];
}

-- The payroll pays the hour.
paid_amount :
    entry_amount 1 (payroll_view (with_extra paid_hour) no_payroll) (payroll_row long_day)
    ≡ ok 250000
unfolding entry_amount authorized_amount
paid_amount = refl

Run-entry_amount_example :
    entry_amount 1 (payroll_view (with_extra paid_hour) no_payroll) (payroll_row long_day)
    ≢ err NominaError.autorizacion_invalida
Run-entry_amount_example =
    Run-entry_amount same_clock two_years 1 clocked (with_extra paid_hour) no_payroll long_day
      clocked-Covered tt extra_run (inl refl)
