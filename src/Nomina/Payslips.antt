-- ===== src/Nomina/Payslips.antt =====
-- The queries on payslips of src/ssas/personal/infrastructure/http/payroll_router.py and the preview of
-- a proportional pay. A query returns rows; the names of workers and the JSON form are left out.
use backend_ssas_rrhh.Base.{
  ℕ, Bool, true, false, ◌&&◌, Option, none, some, List, [], ◌∷◌, leb, ◌==◌, same_key, any,
  find_first, where_rows, Outcome, ok, err, ◌>>=◌, ◌>>◌, raise_if, or_raise,
}
use backend_ssas_rrhh.Base.Int.{pos}
use backend_ssas_rrhh.Payroll.Rules.{ordinal}
use backend_ssas_rrhh.Payroll.Proration.{ProrationSuggestion, suggest_calendar_proration}
use backend_ssas_rrhh.Nomina.Rows.{
  HttpException, http, CurrentUser, PeriodoNomina, Empleado, Contrato, SolicitudAusencia,
  BoletaPago, BoletaDetalle, NominaDb, tenant,
}
use backend_ssas_rrhh.Nomina.Periods.{get_period, is_worker}
use backend_ssas_rrhh.Nomina.Review.{
  month_start, month_end, contracts_of, of_employee, unpaid_leave_of, leave_ranges,
}
use backend_ssas_rrhh.Nomina.Calculate.{is_aprobado, is_boleta}

-- `self_employee` of src/ssas/personal/infrastructure/http/router.py
unfoldable pub self_employee : CurrentUser → NominaDb → Outcome HttpException Empleado
self_employee user db = do
  company ← or_raise user.empresa_id (http 403 "Se requiere una cuenta de empresa")
  or_raise
      (find_first
        (λ (e : Empleado). same_key e.usuario_id (some user.id) && e.empresa_id == company)
        db.empleados)
      (http 404 "La cuenta no esta asociada a un empleado")

-- The period of the payslip is approved.
abbrev pub in_approved : NominaDb → BoletaPago → Bool
in_approved db b =
    any (λ (p : PeriodoNomina). p.id == b.periodo_id && is_aprobado p.estado) db.periodos

abbrev pub is_own : CurrentUser → Empleado → BoletaPago → Bool
is_own user worker b = same_key (some b.empresa_id) user.empresa_id && b.empleado_id == worker.id

-- `my_payslips`
unfoldable pub my_payslips : CurrentUser → NominaDb → Outcome HttpException (List BoletaPago)
my_payslips user db = do
  worker ← self_employee user db
  ok (where_rows (λ b. is_own user worker b && in_approved db b) db.boletas)

-- The details of a payslip.
abbrev pub details_of : BoletaPago → NominaDb → List BoletaDetalle
details_of b db =
    where_rows (λ (d : BoletaDetalle). d.empresa_id == b.empresa_id && d.boleta_id == b.id)
      db.detalles

-- The period is approved, and of the user's company.
abbrev pub in_own_approved : CurrentUser → NominaDb → BoletaPago → Bool
in_own_approved user db b =
    any
      (λ (p : PeriodoNomina).
        p.id == b.periodo_id
        && same_key (some p.empresa_id) user.empresa_id
        && is_aprobado p.estado)
      db.periodos

-- `my_payslip_detail`
unfoldable pub my_payslip_detail :
    CurrentUser → ℕ → NominaDb → Outcome HttpException (BoletaPago × List BoletaDetalle)
my_payslip_detail user boleta_id db = do
  worker ← self_employee user db
  row ←
      or_raise
        (find_first (λ b. b.id == boleta_id && is_own user worker b && in_own_approved user db b)
          db.boletas)
        (http 404 "Boleta no encontrada")
  ok (row, details_of row db)

-- `payslip_detail`
unfoldable pub payslip_detail :
    CurrentUser → Option ℕ → ℕ → NominaDb → Outcome HttpException (BoletaPago × List BoletaDetalle)
payslip_detail user empresa_id boleta_id db = do
  company ← tenant user empresa_id
  row ←
      or_raise
        (find_first (λ (b : BoletaPago). b.id == boleta_id && b.empresa_id == company) db.boletas)
        (http 404 "Boleta no encontrada")
  ok (row, details_of row db)

-- `period_payslips`: those whose worker is there.
unfoldable pub period_payslips :
    CurrentUser → Option ℕ → ℕ → NominaDb → Outcome HttpException (List BoletaPago)
period_payslips user empresa_id periodo_id db = do
  company ← tenant user empresa_id
  p ← get_period company periodo_id db
  ok (
      where_rows (λ b. is_boleta p b && any (is_worker b.empresa_id b.empleado_id) db.empleados)
        db.boletas)

-- The contract covers the whole month.
abbrev pub is_full : ℕ → ℕ → Contrato → Bool
is_full first last c =
    leb c.fecha_inicio first && (elim c.fecha_fin [ none ↦ true | some until ↦ leb last until ])

abbrev pub the_contract : List Contrato → Option Contrato
the_contract (c ∷ []) = some c
the_contract _ = none

-- `suggest_proportional_pay`. An exception of the proration is not caught here.
unfoldable pub suggest_proportional_pay :
    CurrentUser → Option ℕ → ℕ → ℕ → NominaDb → Outcome HttpException ProrationSuggestion
suggest_proportional_pay user empresa_id periodo_id empleado_id db = do
  company ← tenant user empresa_id
  p ← get_period company periodo_id db
  let first = ordinal (month_start p)
  let last = ordinal (month_end p)
  c ←
      or_raise
        (the_contract (where_rows (of_employee empleado_id) (contracts_of company first last db)))
        (http 409 "Se requiere un unico contrato durante el periodo")
  let leaves =
      where_rows (λ (a : SolicitudAusencia). a.empleado_id == empleado_id)
        (unpaid_leave_of company first last (c ∷ []) db)
  raise_if (is_full first last c && (elim leaves [ [] ↦ true | _ ∷ _ ↦ false ]))
      (http 409 "El contrato cubre el mes completo sin ausencias sin goce")
  s ←
      elim (suggest_calendar_proration (pos c.salario_basico) (month_start p) (month_end p)
        c.fecha_inicio c.fecha_fin (leave_ranges empleado_id leaves)) [
          | ok s ↦ ok s
          | err e ↦ err (http 500 "Internal Server Error")
        ]
  raise_if (s.paid_days == 0) (http 409 "No hay dias pagables; requiere revision especial de RRHH")
  ok s
