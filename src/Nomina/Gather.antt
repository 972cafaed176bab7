-- ===== src/Nomina/Gather.antt =====
-- What `calculate_period` reads: its part up to the computation, of
-- src/ssas/personal/infrastructure/http/payroll_router.py. The
-- rules are listed as the table has them, since `calculate_payroll` sorts them.
use backend_ssas_rrhh.Base.{
  ℕ, Bool, true, false, not, ◌&&◌, ◌||◌, Option, none, some, List, [], ◌∷◌, ◌++◌, map, String,
  str_eq, member, ◌==◌, is_some, any, find_first, where_rows, Outcome, ok, ◌>>=◌, ◌>>◌, raise_if,
  if◌then◌else◌,
}
use backend_ssas_rrhh.Payroll.Rules.{Rule, ordinal}
use backend_ssas_rrhh.Payroll.Calc.{Amounts, truthy}
use backend_ssas_rrhh.Nomina.Rows.{
  HttpException, http, NominaError, CurrentUser, PeriodoNomina, ReglaSalarial, ImpuestoEmpleado,
  HaberProporcional, Contrato, SolicitudCorreccion, Asistencia, NominaDb,
}
use backend_ssas_rrhh.Nomina.Legal.{legal_rates, minimum_wage}
use backend_ssas_rrhh.Nomina.Structure.{is_externo, is_ingreso, is_descuento, is_tramos}
use backend_ssas_rrhh.Nomina.Review.{
  month_start, month_end, contracts_of, has_repeated, is_pending_leave, unpaid_leave_of,
  partial_pay_of, review_contracts, in_month, attendance_of, overtime_of,
}

-- `REQUIRED_CONCEPTS`
abbrev pub required_concepts : List String
required_concepts =
    "SALARIO_BASICO" ∷ "HORAS_EXTRA" ∷ "AFP" ∷ "SOLIDARIO" ∷ "ANS" ∷ "RC_IVA" ∷ "CNS_PATRONAL"
    ∷ "VIVIENDA_PATRONAL" ∷ "RIESGO_PATRONAL" ∷ "SOLIDARIO_PATRONAL" ∷ []

abbrev pub codes_of : List Rule → List String
codes_of = map (λ (r : Rule). r.codigo)

abbrev pub no_rules : List Rule → Bool
no_rules [] = true
no_rules (_ ∷ _) = false

-- The active rules of a structure.
unfoldable pub rules_of : ℕ → ℕ → NominaDb → List ReglaSalarial
rules_of company estructura_id db =
    where_rows
      (λ (q : ReglaSalarial).
        q.empresa_id == company && q.estructura_id == estructura_id && q.rule.activa)
      db.reglas

-- The checks of the rules of the structure.
unfoldable pub check_rules : List Rule → Outcome HttpException (Unit {0})
check_rules rules = do
  raise_if (no_rules rules) (http 409 "Faltan reglas salariales")
  raise_if (any (λ code. not (member code (codes_of rules))) required_concepts)
      (http 409 "La estructura salarial no tiene todos los conceptos legales obligatorios")
  raise_if (any (λ (r : Rule). str_eq r.codigo "RC_IVA" && not (is_externo r.tipo_calculo)) rules)
      (http 409 "RC-IVA debe provenir de planilla tributaria por empleado")
  raise_if
      (any
        (λ (r : Rule).
          str_eq r.codigo "HORAS_EXTRA"
          && (not (is_ingreso r.tipo) || not (is_externo r.tipo_calculo)))
        rules)
      (http 409 "HORAS_EXTRA debe provenir de autorizacion de RRHH")
  raise_if
      (any
        (λ (r : Rule).
          str_eq r.codigo "ANS" && (not (is_descuento r.tipo) || not (is_tramos r.tipo_calculo)))
        rules)
      (http 409 "La regla ANS debe calcularse por tramos")

-- The set of the codes of the parameters of the rules.
unfoldable pub parameter_codes : List Rule → List String
parameter_codes [] = []
parameter_codes (r ∷ rules) =
    let codes = parameter_codes rules in
    elim (truthy r.parametro_codigo) [
      | none ↦ codes
      | some code ↦ if member code codes then codes else code ∷ codes
    ]

-- The identifiers that the rows of a worker get.
pub record NewIds : Type 0 where
  pub haber : ℕ → ℕ
  pub boleta : ℕ → ℕ

-- What a period's computation has read, once every check has passed.
pub record Inputs : Type 0 where
  pub rules : List Rule
  pub rates : Amounts
  pub contracts : List Contrato
  pub pays : List HaberProporcional
  pub added : List HaberProporcional
  pub overtime : List (ℕ × ℕ)
  pub taxes : List ImpuestoEmpleado
  pub smn : Option ℕ

abbrev pub tax_of : ℕ → List ImpuestoEmpleado → Option ImpuestoEmpleado
tax_of empleado_id = find_first (λ (t : ImpuestoEmpleado). t.empleado_id == empleado_id)

-- The minimum wage is read if some worker has tax data.
unfoldable pub wage_for : NominaDb → ℕ → ℕ → List ImpuestoEmpleado → Outcome NominaError (Option ℕ)
wage_for db first cutoff taxes =
    if any (λ (t : ImpuestoEmpleado). is_some t.datos_tributarios) taxes
    then (minimum_wage db first cutoff >>= λ wage. ok (some wage))
    else ok none

abbrev pub is_pending_correction : ℕ → ℕ → ℕ → SolicitudCorreccion → Bool
is_pending_correction company first cutoff x =
    x.empresa_id == company && str_eq x.estado "PENDIENTE" && in_month first cutoff x.fecha

-- Everything that is read before the computation of the payslips.
unfoldable pub gather :
    CurrentUser → PeriodoNomina → NewIds → List Rule → NominaDb → Outcome NominaError Inputs
gather user p ids rules db = do
  let company = p.empresa_id
  let first = ordinal (month_start p)
  let cutoff = ordinal (month_end p)
  rates ← legal_rates db first cutoff (parameter_codes rules)
  let contracts = contracts_of company first cutoff db
  raise_if (has_repeated contracts) NominaError.contratos_solapados
  raise_if (elim contracts [ [] ↦ true | _ ∷ _ ↦ false ]) NominaError.sin_contratos
  raise_if (any (is_pending_leave company first cutoff contracts) db.ausencias)
      NominaError.ausencias_pendientes
  let leaves = unpaid_leave_of company first cutoff contracts db
  let pays = partial_pay_of company p.id contracts db
  added ← review_contracts p ids.haber user.id leaves pays contracts
  raise_if (any (is_pending_correction company first cutoff) db.correcciones)
      NominaError.correcciones_pendientes
  let attendance = attendance_of company first cutoff contracts db
  raise_if (any (λ (a : Asistencia). not (is_some a.hora_salida)) attendance)
      NominaError.fichajes_incompletos
  overtime ← overtime_of company db attendance
  let taxes =
      where_rows (λ (t : ImpuestoEmpleado). t.empresa_id == company && t.periodo_id == p.id)
        db.impuestos
  raise_if (any (λ (c : Contrato). not (is_some (tax_of c.empleado_id taxes))) contracts)
      NominaError.falta_rc_iva
  smn ← wage_for db first cutoff taxes
  ok (record {
    rules = rules;
    rates = rates;
    contracts = contracts;
    pays = pays ++ added;
    added = added;
    overtime = overtime;
    taxes = taxes;
    smn = smn;
  })
