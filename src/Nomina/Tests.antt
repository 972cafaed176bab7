-- ===== src/Nomina/Tests.antt =====
-- A payroll of one worker, and instances of the theorems on periods, rates and rules.
use backend_ssas_rrhh.Base.{
  find_first, ℕ, ◌+◌, ◌≡◌, refl, true, none, some, List, [], ◌∷◌, ◌++◌, String, Outcome, ok, err,
  arith,
}
use backend_ssas_rrhh.Base.Int.{pos}
use backend_ssas_rrhh.Money.{round_half_up, quantize, quantize_ratio, positive, money}
use backend_ssas_rrhh.Payroll.Rules.{
  Rule, Tipo, TipoCalculo, BaseCalculo, ordinal, days_in_month, is_leap,
}
use backend_ssas_rrhh.Payroll.Calc.{
  lookup, add_ans, add_line, ans_amount, ans_sum, apply_rule, apply_rules, basis_of, before_ans,
  calculate_payroll, close_payroll, external_amount, percentage_amount, post_ans, post_rule,
  rule_amount, sort_rules, valid_rate,
}
use backend_ssas_rrhh.Nomina.Rows.{
  HttpException, CurrentUser, ParametroValor, ReglaSalarial, Estado, PeriodoNomina, NominaDb,
  tenant,
}
use backend_ssas_rrhh.Nomina.Legal.{
  LegalValueInput, create_legal_rate, add_value, legal_rate, new_value, legal_rates, minimum_wage,
}
use backend_ssas_rrhh.Nomina.Rates.{WellKept, create_legal_rate-WellKept}
use backend_ssas_rrhh.Nomina.Lookup.{create_legal_rate-legal_rate}
use backend_ssas_rrhh.Nomina.Structure.{check_rule}
use backend_ssas_rrhh.Nomina.Gather.{
  NewIds, check_rules, rules_of, gather, parameter_codes, wage_for,
}
use backend_ssas_rrhh.Nomina.Calculate.{
  Calculated, calculate_period, or_conflict, base_pay, boleta_of, contributions_of, detalles_of,
  pay_contract, pay_contracts, withhold, write_period,
}
use backend_ssas_rrhh.Nomina.Written.{Written, Replaced, calculate_period-Replaced}
use backend_ssas_rrhh.Nomina.Payees.{PaysEach, calculate_period-PaysEach}
use backend_ssas_rrhh.Nomina.Periods.{is_periodo}
use backend_ssas_rrhh.Nomina.Approved.{calculated, Kept}
use backend_ssas_rrhh.Nomina.Final.{stay, then_step, Steps-Kept}
use backend_ssas_rrhh.Nomina.Review.{
  has_repeated, contracts_of, review_contracts, review_contract, unpaid_leave_of, partial_pay_of,
  attendance_of, authorized_amount, check_pay, entry_amount, of_payroll, overtime_of,
  overtime_total,
}

abbrev afp_rule : Rule
afp_rule = record {
  codigo = "AFP";
  nombre = "Aporte laboral SIP";
  tipo = Tipo.descuento;
  secuencia = 20;
  tipo_calculo = TipoCalculo.porcentaje;
  monto_fijo = none;
  base_calculo = some BaseCalculo.total_ganado;
  parametro_codigo = some "AFP_LABORAL_BO";
  activa = true;
}

afp_rule-accepted : check_rule afp_rule ≡ ok tt
unfolding check_rule
afp_rule-accepted = refl

abbrev regla : ℕ → String → Tipo → TipoCalculo → ReglaSalarial
regla n codigo tipo calculo = record {
  id = n;
  empresa_id = 1;
  estructura_id = 5;
  rule = record afp_rule {
    codigo = codigo;
    nombre = codigo;
    tipo = tipo;
    tipo_calculo = calculo;
    secuencia = n;
  };
}

abbrev period : ℕ → ℕ → Estado → PeriodoNomina
period n mes estado = record {
  id = n;
  empresa_id = 1;
  gestion = 2025;
  mes = mes;
  estado = estado;
  calculado_en = none;
  aprobado_en = none;
  aprobado_por_id = none;
}

abbrev month_db : NominaDb
month_db = record {
  parametros = record { id = 7; codigo = "AFP_LABORAL_BO" } ∷ [];
  valores =
      record {
        id = 8;
        parametro_id = 7;
        valor = ("porcentaje", pos 127100) ∷ [];
        vigente_desde = 739000;
        vigente_hasta = 740000;
        norma_legal = some "Ley 065";
      }
      ∷ [];
  estructuras = record { id = 5; empresa_id = 1; nombre = "Nomina general"; activa = true } ∷ [];
  reglas =
      regla 10 "SALARIO_BASICO" Tipo.ingreso TipoCalculo.base
      ∷ regla 15 "HORAS_EXTRA" Tipo.ingreso TipoCalculo.externo
      ∷ regla 20 "AFP" Tipo.descuento TipoCalculo.porcentaje
      ∷ regla 30 "SOLIDARIO" Tipo.descuento TipoCalculo.porcentaje
      ∷ regla 35 "ANS" Tipo.descuento TipoCalculo.tramos_ans_bo
      ∷ regla 40 "RC_IVA" Tipo.descuento TipoCalculo.externo
      ∷ regla 50 "CNS_PATRONAL" Tipo.patronal TipoCalculo.porcentaje
      ∷ regla 60 "VIVIENDA_PATRONAL" Tipo.patronal TipoCalculo.porcentaje
      ∷ regla 70 "RIESGO_PATRONAL" Tipo.patronal TipoCalculo.porcentaje
      ∷ regla 80 "SOLIDARIO_PATRONAL" Tipo.patronal TipoCalculo.porcentaje
      ∷ [];
  periodos = period 20 6 Estado.abierto ∷ period 21 5 Estado.aprobado ∷ [];
  impuestos =
      record {
        id = 90;
        empresa_id = 1;
        periodo_id = 20;
        empleado_id = 3;
        rc_iva_retenido = 100000;
        datos_tributarios = none;
        referencia_planilla = "planilla";
        registrado_por_id = 9;
      }
      ∷ [];
  haberes = [];
  empleados = record { id = 3; empresa_id = 1; usuario_id = none } ∷ [];
  contratos =
      record {
        id = 4;
        empresa_id = 1;
        empleado_id = 3;
        salario_basico = 50000000;
        fecha_inicio = 738000;
        fecha_fin = none;
      }
      ∷ [];
  tipos_ausencia = [];
  ausencias = [];
  correcciones = [];
  asistencias = [];
  autorizaciones = [];
  boletas =
      record {
        id = 60;
        empresa_id = 1;
        periodo_id = 21;
        empleado_id = 3;
        contrato_id = 4;
        dias_trabajados = 30;
        salario_basico = 50000000;
        total_ganado = 50000000;
        total_descuentos = 6355000;
        liquido_pagable = 43645000;
        total_aportes_patronales = 0;
      }
      ∷ [];
  detalles = [];
}

abbrev manager : CurrentUser
manager = record { id = 9; empresa_id = some 1 }

abbrev new_ids : NewIds
new_ids = record { haber = λ k. 1000 + k; boleta = λ k. 2000 + k }

abbrev run : Outcome HttpException (List Calculated × NominaDb)
run = calculate_period manager none 5000 740000 new_ids 20 month_db

-- What the run returned.
abbrev returned : List Calculated × NominaDb
returned = elim run [ ok r ↦ r | err _ ↦ ([], month_db) ]

tenant_of_manager : tenant manager none ≡ ok 1
unfolding tenant
tenant_of_manager = refl

run_returns : run ≡ ok (returned.0, returned.1)
unfolding check_rules rules_of gather parameter_codes wage_for calculate_period or_conflict base_pay
    boleta_of contributions_of detalles_of pay_contract pay_contracts withhold write_period
    legal_rates legal_rate minimum_wage tenant has_repeated contracts_of review_contracts
    review_contract unpaid_leave_of partial_pay_of attendance_of authorized_amount check_pay
    entry_amount of_payroll overtime_of overtime_total money positive quantize quantize_ratio
    round_half_up lookup add_ans add_line ans_amount ans_sum apply_rule apply_rules basis_of
    before_ans calculate_payroll close_payroll external_amount percentage_amount post_ans post_rule
    rule_amount sort_rules valid_rate ordinal days_in_month is_leap
run_returns = refl

calculate_period-Replaced_example :
    (w : Written manager 5000 740000 new_ids 20 1 month_db returned.1 returned.0) × Replaced new_ids
      w.p w.x returned.0 month_db returned.1
calculate_period-Replaced_example =
    calculate_period-Replaced manager none 5000 740000 new_ids 20 1 month_db returned.1 returned.0
      tenant_of_manager run_returns

calculate_period-PaysEach_example :
    (p : PeriodoNomina) × (find_first (is_periodo 1 20) month_db.periodos ≡ some p)
    × PaysEach p month_db returned.1
calculate_period-PaysEach_example =
    calculate_period-PaysEach manager none 5000 740000 new_ids 20 1 month_db returned.1 returned.0
      tenant_of_manager run_returns

-- After the computation of another month, the approved one is as it was.
Steps-Kept_example : Kept 1 21 (period 21 5 Estado.aprobado) month_db returned.1
Steps-Kept_example =
    Steps-Kept 1 21 (period 21 5 Estado.aprobado) month_db returned.1
      (record { found = refl; final = refl })
      (then_step month_db returned.1 returned.1
        (calculated manager none 5000 740000 new_ids 20 returned.0 returned.1 run_returns)
        (stay returned.1))

abbrev next_rate : LegalValueInput
next_rate = record {
  vigente_desde = 740001;
  vigente_hasta = 741000;
  amount = 130000;
  norma_legal = "Ley 065";
}

abbrev next_row : ParametroValor
next_row = new_value 77 7 "porcentaje" next_rate

abbrev rate_db : NominaDb
rate_db = record month_db { valores = month_db.valores ++ next_row ∷ [] }

next_rate-created :
    create_legal_rate "AFP_LABORAL_BO" 77 next_rate month_db ≡ ok (next_row, rate_db)
unfolding create_legal_rate add_value
next_rate-created = refl

create_legal_rate-WellKept_example : WellKept rate_db
create_legal_rate-WellKept_example =
    create_legal_rate-WellKept "AFP_LABORAL_BO" 77 next_rate next_row month_db rate_db
      (record { apart = (tt, tt); ordered = (omega arith, tt) }) next_rate-created

create_legal_rate-legal_rate_example :
    legal_rate rate_db 740010 740040 "AFP_LABORAL_BO" ≡ ok (pos 130000)
create_legal_rate-legal_rate_example =
    create_legal_rate-legal_rate "AFP_LABORAL_BO" 77 next_rate next_row month_db rate_db
      (record { id = 7; codigo = "AFP_LABORAL_BO" }) refl ((λ e. refl), tt) refl next_rate-created
      740010 740040 (omega arith) (omega arith) (omega arith)
