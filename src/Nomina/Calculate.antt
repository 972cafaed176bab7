-- ===== src/Nomina/Calculate.antt =====
-- `calculate_period` of src/ssas/personal/infrastructure/http/payroll_router.py: the payslips of a
-- period, and what is written for them.
use backend_ssas_rrhh.Base.{
  ℕ, ◌+◌, Bool, true, false, not, ◌&&◌, ◌||◌, Option, none, some, List, [], ◌∷◌, ◌++◌, map, String,
  str_eq, leb, ◌==◌, is_some, any, find_first, where_rows, update_where, Outcome, ok, err, ◌>>=◌,
  ◌>>◌, raise_if, or_raise, if◌then◌else◌,
}
use backend_ssas_rrhh.Base.Int.{pos}
use backend_ssas_rrhh.Money.{finite}
use backend_ssas_rrhh.Session.{Handler}
use backend_ssas_rrhh.Payroll.Rules.{Date, ordinal, PayrollLine, PayrollResult}
use backend_ssas_rrhh.Payroll.Calc.{Amounts, calculate_payroll}
use backend_ssas_rrhh.Payroll.RcIva.{RcIvaResult, calculate_rc_iva}
use backend_ssas_rrhh.Nomina.Rows.{
  HttpException, http, conflict, NominaError, CurrentUser, Estado, PeriodoNomina, ReglaSalarial,
  DatosTributarios, ImpuestoEmpleado, HaberProporcional, Contrato, BoletaPago, BoletaDetalle,
  NominaDb, tenant,
}
use backend_ssas_rrhh.Nomina.Structure.{structure_of}
use backend_ssas_rrhh.Nomina.Periods.{is_periodo, get_period}
use backend_ssas_rrhh.Nomina.Review.{month_end, of_payroll, pay_of, overtime_total}
use backend_ssas_rrhh.Nomina.Gather.{Inputs, NewIds, rules_of, check_rules, tax_of, gather}

-- An entry of `calculated`, with the tax row as the computation leaves it.
pub record Calculated : Type 0 where
  pub contract : Contrato
  pub result : PayrollResult
  pub tax : ImpuestoEmpleado

abbrev pub is_contribution : PayrollLine → Bool
is_contribution l = str_eq l.code "AFP" || str_eq l.code "SOLIDARIO" || str_eq l.code "ANS"

-- The sum of the labour contributions of a result.
unfoldable pub contributions_of : List PayrollLine → ℕ
contributions_of [] = 0
contributions_of (l ∷ lines) =
    let rest = contributions_of lines in if is_contribution l then l.amount + rest else rest

-- The basic pay of a worker: the reviewed one, or the contract's.
unfoldable pub base_pay : List HaberProporcional → Contrato → ℕ
base_pay pays c = elim (pay_of c.empleado_id pays) [
  | none ↦ c.salario_basico
  | some h ↦ h.haber_basico_pagado
]

abbrev pub external_amounts : ℕ → ℕ → Amounts
external_amounts rc_iva overtime = ("RC_IVA", pos rc_iva) ∷ ("HORAS_EXTRA", pos overtime) ∷ []

abbrev pub with_result : DatosTributarios → RcIvaResult → ImpuestoEmpleado → ImpuestoEmpleado
with_result datos r t = record t {
  rc_iva_retenido = r.withheld;
  datos_tributarios = some (record datos {
    saldo_favor_siguiente = some r.next_credit;
    saldo_siete_rg_siguiente = some r.next_siete_rg;
  });
}

-- The withholding that a tax row holds before the computation.
abbrev pub provisional_rc_iva : ImpuestoEmpleado → ℕ
provisional_rc_iva t = if is_some t.datos_tributarios then 0 else t.rc_iva_retenido

module _ (x : Inputs) (cutoff : Date) where
  abbrev pub run_payroll : Contrato → ℕ → Outcome NominaError PayrollResult
  run_payroll c rc_iva = of_payroll (
      calculate_payroll (pos (base_pay x.pays c)) x.rules x.rates
        (some (external_amounts rc_iva (overtime_total c.empleado_id x.overtime))) (some cutoff))

  -- The RC-IVA of a worker with tax data, from a provisional payroll without it. The minimum wage is
  -- there whenever some worker has tax data.
  unfoldable pub withhold :
      ImpuestoEmpleado → DatosTributarios → PayrollResult → Outcome NominaError ImpuestoEmpleado
  withhold t datos provisional = do
    wage ← or_raise x.smn NominaError.smn_sin_vigencia_unica
    r ← of_payroll (
        calculate_rc_iva cutoff (finite (pos provisional.gross))
          (finite (pos (contributions_of provisional.lines))) (finite (pos wage))
          (finite (pos datos.f110_credito)) (finite (pos datos.saldo_favor_anterior))
          (finite (pos datos.mantenimiento_valor)) (finite (pos datos.saldo_siete_rg))
          (finite (pos datos.f110_siete_rg)))
    ok (with_result datos r t)

  -- The block `if tax_row.datos_tributarios is not None`.
  abbrev pub taxed : ImpuestoEmpleado → PayrollResult → Outcome NominaError ImpuestoEmpleado
  taxed t provisional = elim t.datos_tributarios [
    | none ↦ ok t
    | some datos ↦ withhold t datos provisional
  ]

  -- One pass of the loop over the contracts.
  unfoldable pub pay_contract : Contrato → Outcome NominaError Calculated
  pay_contract c = do
    t ← or_raise (tax_of c.empleado_id x.taxes) NominaError.falta_rc_iva
    provisional ← run_payroll c (provisional_rc_iva t)
    t' ← taxed t provisional
    result ← run_payroll c t'.rc_iva_retenido
    ok (record { contract = c; result = result; tax = t' })

  unfoldable pub pay_contracts : List Contrato → Outcome NominaError (List Calculated)
  pay_contracts [] = ok []
  pay_contracts (c ∷ cs) = do done ← pay_contract c; more ← pay_contracts cs; ok (done ∷ more)

-- `except (PayrollConfigurationError, ValueError) as exc: raise HTTPException(409, str(exc))`
unfoldable pub or_conflict : {A : Type 0} → Outcome NominaError A → Outcome HttpException A
or_conflict (ok a) = ok a
or_conflict (err e) = err (conflict e)

abbrev pub days_paid : List HaberProporcional → Contrato → ℕ
days_paid pays c = elim (pay_of c.empleado_id pays) [ none ↦ 30 | some h ↦ h.dias_pagados ]

unfoldable pub boleta_of : NewIds → PeriodoNomina → List HaberProporcional → Calculated → BoletaPago
boleta_of ids p pays done = record {
  id = ids.boleta done.contract.empleado_id;
  empresa_id = p.empresa_id;
  periodo_id = p.id;
  empleado_id = done.contract.empleado_id;
  contrato_id = done.contract.id;
  dias_trabajados = days_paid pays done.contract;
  salario_basico = base_pay pays done.contract;
  total_ganado = done.result.gross;
  total_descuentos = done.result.deductions;
  liquido_pagable = done.result.net;
  total_aportes_patronales = done.result.employer_contributions;
}

-- The identifier of the rule of a line.
abbrev pub rule_id : List ReglaSalarial → String → Option ℕ
rule_id reglas code = elim (find_first (λ (q : ReglaSalarial). str_eq q.rule.codigo code) reglas) [
  | none ↦ none
  | some q ↦ some q.id
]

unfoldable pub detalles_of :
    NewIds → PeriodoNomina → List ReglaSalarial → Calculated → List BoletaDetalle
detalles_of ids p reglas done =
    map
      (λ (l : PayrollLine). record {
        empresa_id = p.empresa_id;
        boleta_id = ids.boleta done.contract.empleado_id;
        regla_id = rule_id reglas l.code;
        line = l;
      })
      done.result.lines

-- A payslip of the period.
abbrev pub is_boleta : PeriodoNomina → BoletaPago → Bool
is_boleta p b = b.periodo_id == p.id && b.empresa_id == p.empresa_id

abbrev pub all_detalles :
    NewIds → PeriodoNomina → List ReglaSalarial → List Calculated → List BoletaDetalle
all_detalles ids p reglas [] = []
all_detalles ids p reglas (done ∷ rest) =
    detalles_of ids p reglas done ++ all_detalles ids p reglas rest

-- The tax row of a worker, as the computation leaves it.
abbrev pub put_taxes : List Calculated → List ImpuestoEmpleado → List ImpuestoEmpleado
put_taxes [] rows = rows
put_taxes (done ∷ rest) rows =
    put_taxes rest
      (update_where (λ (t : ImpuestoEmpleado). t.id == done.tax.id) (λ t. done.tax) rows)

-- The end of the endpoint: the old payslips go, the new ones are inserted, the period is calculated.
unfoldable pub write_period :
    ℕ → NewIds → PeriodoNomina → List ReglaSalarial → Inputs → List Calculated → NominaDb → NominaDb
write_period now ids p reglas x done db =
    let old = where_rows (is_boleta p) db.boletas in
    record db {
      periodos =
          update_where (is_periodo p.empresa_id p.id)
            (λ q. record q { estado = Estado.calculado; calculado_en = some now }) db.periodos;
      haberes = db.haberes ++ x.added;
      impuestos = put_taxes done db.impuestos;
      boletas =
          where_rows (λ b. not (is_boleta p b)) db.boletas ++ map (boleta_of ids p x.pays) done;
      detalles =
          where_rows
            (λ (d : BoletaDetalle). not (any (λ (b : BoletaPago). b.id == d.boleta_id) old))
            db.detalles
          ++ all_detalles ids p reglas done;
    }

abbrev pub is_aprobado : Estado → Bool
is_aprobado Estado.aprobado = true
is_aprobado _ = false

-- `calculate_period`; `today` is the ordinal of the current date.
unfoldable pub calculate_period :
    CurrentUser → Option ℕ → ℕ → ℕ → NewIds → ℕ → Handler NominaDb HttpException (List Calculated)
calculate_period user empresa_id now today ids periodo_id db = do
  company ← tenant user empresa_id
  p ← get_period company periodo_id db
  raise_if (is_aprobado p.estado) (http 409 "El periodo ya fue aprobado")
  raise_if (leb today (ordinal (month_end p))) (http 409 "Solo se calculan meses cerrados")
  s ← or_raise (structure_of company db) (http 409 "Falta estructura salarial activa")
  let reglas = rules_of company s.id db
  let rules = map (λ (q : ReglaSalarial). q.rule) reglas
  check_rules rules
  x ← or_conflict (gather user p ids rules db)
  done ← or_conflict (pay_contracts x (month_end p) x.contracts)
  ok (done, write_period now ids p reglas x done db)
