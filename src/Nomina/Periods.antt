-- ===== src/Nomina/Periods.antt =====
-- The states of a payroll period, and what is registered while it is open: `open_period`,
-- `register_tax_withholding`, `register_tax_data`, `register_proportional_pay` and `approve_period` of
-- src/ssas/personal/infrastructure/http/payroll_router.py. The schemas admit no negative amounts.
use backend_ssas_rrhh.Base.{
  ℕ, Bool, true, false, not, ◌&&◌, Option, none, some, List, String, ltb, ◌==◌, is_some, find_first,
  update_where, add_row, Outcome, ok, ◌>>=◌, ◌>>◌, raise_if, or_raise, if◌then◌else◌,
}
use backend_ssas_rrhh.Session.{Handler}
use backend_ssas_rrhh.Payroll.Rules.{days_in_month}
use backend_ssas_rrhh.Nomina.Rows.{
  HttpException, http, CurrentUser, Estado, PeriodoNomina, DatosTributarios, ImpuestoEmpleado,
  HaberProporcional, Empleado, NominaDb, tenant,
}

abbrev pub is_abierto : Estado → Bool
is_abierto Estado.abierto = true
is_abierto _ = false

abbrev pub is_calculado : Estado → Bool
is_calculado Estado.calculado = true
is_calculado _ = false

-- The row of a period of the company.
abbrev pub is_periodo : ℕ → ℕ → PeriodoNomina → Bool
is_periodo company periodo_id p = p.id == periodo_id && p.empresa_id == company

abbrev pub get_period : ℕ → ℕ → NominaDb → Outcome HttpException PeriodoNomina
get_period company periodo_id db =
    or_raise (find_first (is_periodo company periodo_id) db.periodos)
      (http 404 "Periodo no encontrado")

abbrev pub is_worker : ℕ → ℕ → Empleado → Bool
is_worker company empleado_id e = e.id == empleado_id && e.empresa_id == company

abbrev pub get_worker : ℕ → ℕ → NominaDb → Outcome HttpException Empleado
get_worker company empleado_id db =
    or_raise (find_first (is_worker company empleado_id) db.empleados)
      (http 404 "Empleado no encontrado")

unfoldable pub open_period :
    CurrentUser → Option ℕ → ℕ → ℕ → ℕ → Handler NominaDb HttpException PeriodoNomina
open_period user empresa_id new_id gestion mes db = do
  company ← tenant user empresa_id
  raise_if
      (is_some (
        find_first (λ p. p.empresa_id == company && p.gestion == gestion && p.mes == mes)
          db.periodos))
      (http 409 "El periodo ya existe")
  let row : PeriodoNomina = record {
    id = new_id;
    empresa_id = company;
    gestion = gestion;
    mes = mes;
    estado = Estado.abierto;
    calculado_en = none;
    aprobado_en = none;
    aprobado_por_id = none;
  }
  ok (row, record db { periodos = add_row row db.periodos })

-- Update the row that fits, or insert one.
abbrev pub upsert {ℓ} : {A : Type ℓ} → (A → Bool) → (A → A) → A → List A → List A
upsert p f new rows =
    if is_some (find_first p rows) then update_where p f rows else add_row new rows

abbrev pub is_impuesto : ℕ → ℕ → ℕ → ImpuestoEmpleado → Bool
is_impuesto company periodo_id empleado_id t =
    t.empresa_id == company && t.periodo_id == periodo_id && t.empleado_id == empleado_id

-- `TaxWithholdingInput`
pub record TaxWithholdingInput : Type 0 where
  pub empleado_id : ℕ
  pub rc_iva_retenido : ℕ
  pub referencia_planilla : String

abbrev pub with_withholding : TaxWithholdingInput → ℕ → ImpuestoEmpleado → ImpuestoEmpleado
with_withholding x user_id t = record t {
  rc_iva_retenido = x.rc_iva_retenido;
  referencia_planilla = x.referencia_planilla;
  registrado_por_id = user_id;
  datos_tributarios = none;
}

abbrev pub new_impuesto : ℕ → ℕ → ℕ → ℕ → TaxWithholdingInput → ImpuestoEmpleado
new_impuesto new_id company periodo_id user_id x = record {
  id = new_id;
  empresa_id = company;
  periodo_id = periodo_id;
  empleado_id = x.empleado_id;
  rc_iva_retenido = x.rc_iva_retenido;
  datos_tributarios = none;
  referencia_planilla = x.referencia_planilla;
  registrado_por_id = user_id;
}

unfoldable pub register_tax_withholding :
    CurrentUser → Option ℕ → ℕ → ℕ → TaxWithholdingInput → Handler NominaDb HttpException (Unit {0})
register_tax_withholding user empresa_id periodo_id new_id x db = do
  company ← tenant user empresa_id
  period ← get_period company periodo_id db
  raise_if (not (is_abierto period.estado))
      (http 409 "El importe tributario solo se registra antes de calcular")
  get_worker company x.empleado_id db
  ok (
    tt,
    record db {
      impuestos =
          upsert (is_impuesto company periodo_id x.empleado_id) (with_withholding x user.id)
            (new_impuesto new_id company periodo_id user.id x) db.impuestos;
    },
  )

-- `register_tax_data`: the row of the withholding, with the data of the worksheet.
unfoldable pub register_tax_data :
    CurrentUser
    → Option ℕ
    → ℕ
    → ℕ
    → ℕ
    → String
    → DatosTributarios
    → Handler NominaDb HttpException (Unit {0})
register_tax_data user empresa_id periodo_id new_id empleado_id referencia datos db = do
  company ← tenant user empresa_id
  (_, db') ←
      register_tax_withholding user empresa_id periodo_id new_id
        (record {
          empleado_id = empleado_id;
          rc_iva_retenido = 0;
          referencia_planilla = referencia;
        })
        db
  ok (
    tt,
    record db' {
      impuestos =
          update_where (is_impuesto company periodo_id empleado_id)
            (λ t. record t { datos_tributarios = some datos }) db'.impuestos;
    },
  )

abbrev pub is_haber : ℕ → ℕ → ℕ → HaberProporcional → Bool
is_haber company periodo_id empleado_id h =
    h.empresa_id == company && h.periodo_id == periodo_id && h.empleado_id == empleado_id

-- `ProportionalPayInput`
pub record ProportionalPayInput : Type 0 where
  pub empleado_id : ℕ
  pub dias_pagados : ℕ
  pub haber_basico_pagado : ℕ
  pub referencia_calculo : String

unfoldable pub register_proportional_pay :
    CurrentUser
    → Option ℕ
    → ℕ
    → ℕ
    → ProportionalPayInput
    → Handler NominaDb HttpException (Unit {0})
register_proportional_pay user empresa_id periodo_id new_id x db = do
  company ← tenant user empresa_id
  period ← get_period company periodo_id db
  raise_if (not (is_abierto period.estado))
      (http 409 "El haber proporcional solo se registra antes de calcular")
  raise_if (ltb (days_in_month period.gestion period.mes) x.dias_pagados)
      (http 422 "Los dias pagados exceden la duracion del mes")
  get_worker company x.empleado_id db
  ok (
    tt,
    record db {
      haberes =
          upsert (is_haber company periodo_id x.empleado_id)
            (λ h. record h {
              dias_pagados = x.dias_pagados;
              haber_basico_pagado = x.haber_basico_pagado;
              referencia_calculo = x.referencia_calculo;
              registrado_por_id = user.id;
            })
            (record {
              id = new_id;
              empresa_id = company;
              periodo_id = periodo_id;
              empleado_id = x.empleado_id;
              dias_pagados = x.dias_pagados;
              haber_basico_pagado = x.haber_basico_pagado;
              referencia_calculo = x.referencia_calculo;
              registrado_por_id = user.id;
            })
            db.haberes;
    },
  )

unfoldable pub approve_period :
    CurrentUser → Option ℕ → ℕ → ℕ → Handler NominaDb HttpException (Unit {0})
approve_period user empresa_id now periodo_id db = do
  company ← tenant user empresa_id
  row ← get_period company periodo_id db
  raise_if (not (is_calculado row.estado)) (http 409 "Se requiere una nomina calculada")
  ok (
    tt,
    record db {
      periodos =
          update_where (is_periodo company periodo_id)
            (λ p. record p {
              estado = Estado.aprobado;
              aprobado_en = some now;
              aprobado_por_id = some user.id;
            })
            db.periodos;
    },
  )
